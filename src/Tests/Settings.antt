-- ===== src/Tests/Settings.antt =====
-- The configuration of the paper broker and of the strategy on concrete inputs.
use hermes_crypto_lab.Base.{
  ℕ, ◌%◌, ◌+◌, ◌≤◌, ◌<◌, ◌*◌, ◌≡◌, refl, arith, some, true, [], ◌∷◌, ok, String,
}
use hermes_crypto_lab.Base.Int.{ℤ, pos}
use hermes_crypto_lab.Decimal.{dec_leb}
use hermes_crypto_lab.Float.{integer, floating, boolean}
use hermes_crypto_lab.Time.{aware, day_ns, hour_ns, minute_ns, normalize}
use hermes_crypto_lab.Schedule.{schedule_timestamps, target_offset_minutes}
use hermes_crypto_lab.Strategy.{
  StrategyConfig, check_strategy, check_caps, not_positive_integer, not_natural, not_positive_real,
  not_share, required_observations,
}
use hermes_crypto_lab.Strategy.Windows.{required_observations-covers}
use hermes_crypto_lab.Config.{
  PaperConfig, schedule_of, check_config, check_rates, check_schedule, check_limits, outside,
  not_positive_int, not_bool, bad_rate, bad_tolerance, bad_cash, exceeds, not_fraction,
}
use hermes_crypto_lab.Config.Accepted.{check_config-schedules}
use hermes_crypto_lab.Tests.Fixed.{fixed}

abbrev strip : String → String
strip s = s

-- The default strategy.
abbrev strategy : StrategyConfig ℤ
strategy = record {
  momentum_short_days = integer (pos 30);
  momentum_long_days = integer (pos 90);
  momentum_skip_days = integer (pos 7);
  btc_moving_average_days = integer (pos 200);
  volatility_days = integer (pos 30);
  annualization_days = integer (pos 365);
  max_assets = integer (pos 2);
  asset_caps = some ((some "BTC/USDT", floating (pos 7_000)) ∷ []);
  altcoins = some (some "BNB/USDT" ∷ []);
  max_altcoin_weight = floating (pos 6_000);
}

strategy_accepted : check_strategy fixed strip strategy ≡ ok tt
unfolding check_strategy check_caps not_positive_integer not_natural not_positive_real not_share
    dec_leb
strategy_accepted = refl

required_observations-covers_example :
    (3 ≤ 200)
    × (31 ≤ 200)
    × (91 ≤ 200)
    × (7 < 90)
    × ((0 < 200) × (200 ≤ 200))
    × ((2 ≤ 30) × (31 ≤ 200))
unfolding required_observations
required_observations-covers_example =
    required_observations-covers fixed strip strategy 200 strategy_accepted (omega arith)

abbrev paper : PaperConfig ℤ
paper = record {
  assets = "BTC/USDT" ∷ [];
  initial_cash = pos 20_000_000;
  exchange_id = some "binance";
  lookback_days = pos 260;
  fee_rate = pos 10;
  minimum_spread_rate = pos 2;
  slippage_rate = pos 5;
  schedule_weekday = integer (pos 0);
  schedule_hour = integer (pos 0);
  schedule_minute = integer (pos 5);
  execution_target_minute = integer (pos 10);
  schedule_window_minutes = integer (pos 15);
  max_data_staleness_minutes = integer (pos 30);
  max_quote_staleness_minutes = integer (pos 5);
  max_quote_timestamp_skew_seconds = integer (pos 30);
  quantity_tolerance = pos 1;
  rebalance_days = pos 7;
  require_exchange_rules = boolean true;
  require_execution_rule_evidence = boolean true;
  max_abs_daily_return = floating (pos 7_500);
  max_volume_ratio = floating (pos 1_000_000);
  strategy_config = strategy;
}

paper_accepted : check_config fixed strip paper ≡ ok tt
unfolding check_config check_rates check_schedule check_limits outside not_positive_int not_bool
    bad_rate bad_tolerance bad_cash exceeds not_fraction not_positive_real required_observations
    target_offset_minutes dec_leb
paper_accepted = refl

paper_window :
    schedule_timestamps (schedule_of paper) (aware (hour_ns + 5 * day_ns))
    ≡ ok (5 * day_ns + 5 * minute_ns, 5 * day_ns + 10 * minute_ns, 5 * day_ns + 20 * minute_ns)
unfolding schedule_timestamps target_offset_minutes normalize
paper_window = refl

check_config-schedules_example :
    (start : ℕ) × (target : ℕ) × (end : ℕ) × (schedule_timestamps
        (schedule_of paper)
        (aware (hour_ns + 5 * day_ns))
      ≡ ok (start, target, end))
    × (start ≤ target)
    × (target ≤ end)
    × (start < end)
    × (end ≤ start + hour_ns)
    × (target % hour_ns ≡ 10 * minute_ns)
check_config-schedules_example =
    check_config-schedules fixed strip paper (hour_ns + 5 * day_ns) paper_accepted
