-- ===== src/Backtest.antt =====
-- src/backtest.py: the configuration of a backtest and the target weights that it takes from a
-- signal. The engine is `Backtest/Engine`. A symbol is a text; a message that names a value is
-- written without it.
pub mod Orders
pub mod Engine
pub mod Weights
pub mod Timing
pub mod Rows
use text.Mathlib.Text.{◌==◌ as str_eq}
use hermes_crypto_lab.Base.{
  ℕ, ◌%◌, String, Option, none, some, Bool, true, false, not, ◌||◌, ◌&&◌, List, [], ◌∷◌, any_of,
  if◌then◌else◌, Result, ok, err, ltb, ◌==◌, value_error, raise_if, ◌>>=◌, ◌>>◌,
}
use hermes_crypto_lab.Base.Int.{ℤ, pos, negsuc}
use hermes_crypto_lab.Decimal.{finite}
use hermes_crypto_lab.Float.{FloatOps, Number, integer, as_real, f_zero, f_one}
use hermes_crypto_lab.Costs.{checked, make_costs, is_positive}

pub record BacktestConfig (F : Type 0) : Type 0 where
  pub initial_cash : F
  pub fee_rate : F
  pub slippage_rate : F
  pub rebalance_interval_days : ℕ
  pub quantity_tolerance : F

module _ (fl : FloatOps) where
  open fl use {F, isfinite, lt, le, plus, minus, absolute, of_decimal}

  -- `MAX_QUANTITY_TOLERANCE`, 1e-6
  abbrev pub max_quantity_tolerance : F
  max_quantity_tolerance = of_decimal (finite false 1 (negsuc 5))

  abbrev pub tolerable : F → Bool
  tolerable x = le (f_zero fl) x && le x max_quantity_tolerance

  abbrev pub interval_of : Number F → Result ℕ
  interval_of (integer (pos n)) =
      if ltb 0 n && n % 7 == 0
      then ok n
      else err (value_error "rebalance_interval_days must be a positive multiple of 7")
  interval_of other = err (value_error "rebalance_interval_days must be a positive multiple of 7")

  -- `BacktestConfig(...)`
  unfoldable pub make_config :
      Number F → Number F → Number F → Number F → Number F → Result (BacktestConfig F)
  make_config initial_cash fee_rate slippage_rate interval tolerance = do
    cash ←
        checked fl (is_positive fl) "initial_cash must be a positive finite number"
          (as_real fl initial_cash)
    days ← interval_of interval
    costs ← make_costs fl fee_rate slippage_rate
    t ←
        checked fl tolerable "quantity_tolerance must be finite and within [0, 1e-06]"
          (as_real fl tolerance)
    ok (record {
      initial_cash = cash;
      fee_rate = costs.fee_rate;
      slippage_rate = costs.slippage_rate;
      rebalance_interval_days = days;
      quantity_tolerance = t;
    })

  abbrev pub is_cash : String → Bool
  is_cash s = str_eq s "CASH"

  abbrev pub allowed : List String → String → Bool
  allowed assets s = is_cash s || any_of (λ a. str_eq a s) assets

  abbrev pub weight_of_number : Option F → Result F
  weight_of_number none = err (value_error "Target weight must be numeric")
  weight_of_number (some x) =
      if isfinite x then ok x else err (value_error "Target weight must be finite")

  -- The loop over the raw weights.
  unfoldable pub convert_weights :
      List String → List (String × Number F) → Result (List (String × F))
  convert_weights assets [] = ok []
  convert_weights assets ((asset, weight) ∷ rest) = do
    raise_if (not (allowed assets asset)) (value_error "Unknown target-weight symbol")
    converted ← weight_of_number (as_real fl weight)
    others ← convert_weights assets rest
    ok ((asset, converted) ∷ others)

  -- `sum(weight for asset, weight in result.items() if asset != "CASH")`
  unfoldable pub risky_total : List (String × F) → F → F
  risky_total [] total = total
  risky_total ((asset, w) ∷ rest) total =
      risky_total rest (if is_cash asset then total else plus total w)

  -- `result.get(asset)`; a symbol is a key once.
  unfoldable pub weight_of : String → List (String × F) → Option F
  weight_of asset [] = none
  weight_of asset ((a, w) ∷ rest) =
      let later = weight_of asset rest in if str_eq a asset then some w else later

  abbrev pub one_and : F → F
  one_and tolerance = plus (f_one fl) tolerance

  unfoldable pub check_cash : F → F → Option F → Result (Unit {0})
  check_cash tolerance risky none = ok tt
  check_cash tolerance risky (some cash) = do
    raise_if (lt (one_and tolerance) cash) (value_error "CASH target weight cannot exceed 1")
    raise_if (lt tolerance (absolute (minus (plus risky cash) (f_one fl))))
        (value_error "Explicit CASH target weight must complete the allocation")

  -- `_extract_weights`; what is no mapping is `none`.
  unfoldable pub extract_weights :
      List String → F → Option (List (String × Number F)) → Result (List (String × F))
  extract_weights assets tolerance none = err (value_error "Target weights must be a mapping")
  extract_weights assets tolerance (some raw) = do
    result ← convert_weights assets raw
    raise_if (any_of (λ w. lt w.1 (f_zero fl)) result)
        (value_error "Negative target weights are not allowed")
    raise_if (lt (one_and tolerance) (risky_total result (f_zero fl)))
        (value_error "Target weights imply leverage")
    check_cash tolerance (risky_total result (f_zero fl)) (weight_of "CASH" result)
    ok result
