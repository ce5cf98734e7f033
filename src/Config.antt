-- ===== src/Config.antt =====
-- `PaperConfig.__post_init__` of src/paper_broker.py. Fields that the tests take apart by type
-- stand for any value, as `Number` has it; `lookback_days` and `rebalance_days` are integers and
-- the rates floats, as they are annotated. `str.strip` is the interpreter's and a parameter. An
-- integer is compared with a float as the float it converts to.
pub mod Accepted
use text.Mathlib.Text.{◌==◌ as str_eq}
use hermes_crypto_lab.Base.{
  ℕ, ◌+◌, ◌-◌, String, Option, none, some, Bool, true, false, not, ◌||◌, ◌&&◌, List, [], ◌∷◌,
  Result, ok, value_error, raise_if, ◌>>◌, ◌>>=◌, if◌then◌else◌, ltb,
}
use hermes_crypto_lab.Base.Int.{ℤ, pos, leb_ℤ, ltb_ℤ}
use hermes_crypto_lab.Float.{
  FloatOps, Number, boolean, integer, floating, not_real, as_real, f_zero, f_one,
}
use hermes_crypto_lab.Schedule.{ScheduleConfig, target_offset_minutes}
use hermes_crypto_lab.Broker.{BrokerConfig}
use hermes_crypto_lab.Strategy.{
  StrategyConfig, count_of, blank, not_real_with, not_positive_real, required_observations,
}

pub record PaperConfig (F : Type 0) : Type 0 where
  pub assets : List String
  pub initial_cash : F
  pub exchange_id : Option String
  pub lookback_days : ℤ
  pub fee_rate : F
  pub minimum_spread_rate : F
  pub slippage_rate : F
  pub schedule_weekday : Number F
  pub schedule_hour : Number F
  pub schedule_minute : Number F
  pub execution_target_minute : Number F
  pub schedule_window_minutes : Number F
  pub max_data_staleness_minutes : Number F
  pub max_quote_staleness_minutes : Number F
  pub max_quote_timestamp_skew_seconds : Number F
  pub quantity_tolerance : F
  pub rebalance_days : ℤ
  pub require_exchange_rules : Number F
  pub require_execution_rule_evidence : Number F
  pub max_abs_daily_return : Number F
  pub max_volume_ratio : Number F
  pub strategy_config : StrategyConfig F

-- `not values`
abbrev pub is_empty {ℓ} : {A : Type ℓ} → List A → Bool
is_empty [] = true
is_empty (_ ∷ _) = false

module _ {F : Type 0} where
  -- `type(value) is not int or not low <= value <= high`
  unfoldable pub outside : ℕ → ℕ → Number F → Bool
  outside low high (integer n) = not (leb_ℤ (pos low) n && leb_ℤ n (pos high))
  outside low high _ = true

  -- `type(value) is not int or value <= 0`
  unfoldable pub not_positive_int : Number F → Bool
  not_positive_int (integer n) = leb_ℤ n (pos 0)
  not_positive_int _ = true

  -- `type(value) is not bool`
  unfoldable pub not_bool : Number F → Bool
  not_bool (boolean b) = false
  not_bool _ = true

  abbrev pub flag_of : Number F → Bool
  flag_of (boolean b) = b
  flag_of _ = false

  -- What the schedule and the broker read of an accepted configuration.
  abbrev pub schedule_of : PaperConfig F → ScheduleConfig
  schedule_of c = record {
    schedule_weekday = count_of c.schedule_weekday;
    schedule_hour = count_of c.schedule_hour;
    schedule_minute = count_of c.schedule_minute;
    execution_target_minute = count_of c.execution_target_minute;
    schedule_window_minutes = count_of c.schedule_window_minutes;
  }

  abbrev pub broker_of : PaperConfig F → BrokerConfig F
  broker_of c = record {
    fee_rate = c.fee_rate;
    minimum_spread_rate = c.minimum_spread_rate;
    slippage_rate = c.slippage_rate;
    quantity_tolerance = c.quantity_tolerance;
    require_exchange_rules = flag_of c.require_exchange_rules;
    require_execution_rule_evidence = flag_of c.require_execution_rule_evidence;
  }

module _ (fl : FloatOps) (strip : String → String) where
  open fl use {F, isfinite, lt, le}

  -- `not math.isfinite(rate) or not 0 <= rate < 1`
  unfoldable pub bad_rate : F → Bool
  bad_rate r = not (isfinite r) || not (le (f_zero fl) r && lt r (f_one fl))

  -- `not math.isfinite(t) or not 0 < t < 1`
  unfoldable pub bad_tolerance : F → Bool
  bad_tolerance t = not (isfinite t) || not (lt (f_zero fl) t && lt t (f_one fl))

  unfoldable pub bad_cash : F → Bool
  bad_cash x = not (isfinite x) || le x (f_zero fl)

  -- `a > b` for two real numbers
  unfoldable pub exceeds : Option F → Option F → Bool
  exceeds (some a) (some b) = lt b a
  exceeds _ _ = false

  unfoldable pub not_fraction : Number F → Bool
  not_fraction n =
      not_real_with fl strip (λ x. not (le x (f_zero fl)) && not (lt (f_one fl) x)) (as_real fl n)

  -- `for rate in (fee_rate, minimum_spread_rate, slippage_rate)`
  unfoldable pub check_rates : List F → Result (Unit {0})
  check_rates [] = ok tt
  check_rates (r ∷ rest) = do
    raise_if (bad_rate r) (value_error "cost rates must be in [0, 1)")
    check_rates rest

  unfoldable pub check_schedule : PaperConfig F → Result (Unit {0})
  check_schedule c = do
    raise_if (outside 0 6 c.schedule_weekday) (value_error "schedule_weekday must be in [0, 6]")
    raise_if (outside 0 23 c.schedule_hour) (value_error "schedule_hour must be in [0, 23]")
    raise_if (outside 0 59 c.schedule_minute) (value_error "schedule_minute must be in [0, 59]")
    raise_if (outside 0 59 c.execution_target_minute)
        (value_error "execution_target_minute must be in [0, 59]")
    raise_if (outside 1 60 c.schedule_window_minutes)
        (value_error "schedule_window_minutes must be an integer in [1, 60]")
    offset ← target_offset_minutes (count_of c.schedule_minute) (count_of c.execution_target_minute)
    raise_if (ltb (count_of c.schedule_window_minutes) offset)
        (value_error "execution_target_minute must fall within the schedule window")

  unfoldable pub check_limits : PaperConfig F → Result (Unit {0})
  check_limits c = do
    raise_if (not_positive_real fl strip c.max_data_staleness_minutes)
        (value_error "max_data_staleness_minutes must be positive")
    raise_if (not_positive_real fl strip c.max_quote_staleness_minutes)
        (value_error "max_quote_staleness_minutes must be positive")
    raise_if
        (exceeds (as_real fl c.max_quote_staleness_minutes)
          (as_real fl c.max_data_staleness_minutes))
        (value_error "max_quote_staleness_minutes cannot exceed max_data_staleness_minutes")
    raise_if (not_positive_int c.max_quote_timestamp_skew_seconds)
        (value_error "max_quote_timestamp_skew_seconds must be a positive integer")
    raise_if (ltb_ℤ c.lookback_days (pos (required_observations c.strategy_config)))
        (value_error "lookback_days is less than the strategy's minimum")
    raise_if (bad_tolerance c.quantity_tolerance)
        (value_error "quantity_tolerance must be finite and in (0, 1)")
    raise_if (leb_ℤ c.rebalance_days (pos 0)) (value_error "rebalance_days must be positive")
    raise_if (not_fraction c.max_abs_daily_return)
        (value_error "max_abs_daily_return must be finite, positive and at most 1")
    raise_if (not_positive_real fl strip c.max_volume_ratio)
        (value_error "max_volume_ratio must be finite, positive")

  -- `PaperConfig.__post_init__`
  unfoldable pub check_config : PaperConfig F → Result (Unit {0})
  check_config c = do
    raise_if (bad_cash c.initial_cash) (value_error "initial_cash must be positive")
    raise_if (blank fl strip c.exchange_id) (value_error "exchange_id must be a nonempty string")
    raise_if (is_empty c.assets) (value_error "assets cannot be empty")
    raise_if (not_bool c.require_exchange_rules)
        (value_error "require_exchange_rules must be a boolean")
    raise_if (not_bool c.require_execution_rule_evidence)
        (value_error "require_execution_rule_evidence must be a boolean")
    raise_if (flag_of c.require_execution_rule_evidence && not (flag_of c.require_exchange_rules))
        (value_error "executionRules evidence requires exchange-rule validation")
    check_rates (c.fee_rate ∷ c.minimum_spread_rate ∷ c.slippage_rate ∷ [])
    check_schedule c
    check_limits c
