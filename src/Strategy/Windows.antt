-- ===== src/Strategy/Windows.antt =====
-- The windows of `generate_signal` of src/strategy.py: with as many rows as
-- `required_observations` asks for, every row that the signal reads is there.
use hermes_crypto_lab.Base.{ℕ, ◌+◌, ◌≤◌, ◌<◌, ◌≡◌, String, true, false, arith, ok, ltb}
use hermes_crypto_lab.Float.{FloatOps, Number, integer}
use hermes_crypto_lab.Strategy.{
  StrategyConfig, not_positive_integer, count_of, check_strategy, required_observations,
}

positive_count : {F : Type 0} (n : Number F) → not_positive_integer n ≡ false → 0 < count_of n
unfolding not_positive_integer
positive_count (integer n) h = ground arith
positive_count _ h = absurd (ground arith)

guards_passed :
    (fl : FloatOps) (strip : String → String) (c : StrategyConfig fl.F)
    → check_strategy fl strip c ≡ ok tt
    → (not_positive_integer c.momentum_short_days ≡ false)
      × (not_positive_integer c.momentum_long_days ≡ false)
      × (not_positive_integer c.btc_moving_average_days ≡ false)
      × (not_positive_integer c.volatility_days ≡ false)
      × (ltb (count_of c.volatility_days) 2 ≡ false)
      × (ltb (count_of c.momentum_skip_days) (count_of c.momentum_long_days) ≡ true)
unfolding check_strategy
guards_passed fl strip c h = ground arith

-- A configuration that is accepted needs at least three rows of history, and as many rows hold
-- the current row, the rows that the momentum reads (counted from the end: the short base, the
-- long base and the skipped endpoint, which is later than the long base), the moving average and
-- the volatility's returns, each of which needs the row before it.
pub required_observations-covers :
    (fl : FloatOps) (strip : String → String) (c : StrategyConfig fl.F) (rows : ℕ)
    → check_strategy fl strip c ≡ ok tt
    → required_observations c ≤ rows
    → (3 ≤ rows)
      × (count_of c.momentum_short_days + 1 ≤ rows)
      × (count_of c.momentum_long_days + 1 ≤ rows)
      × (count_of c.momentum_skip_days < count_of c.momentum_long_days)
      × ((0 < count_of c.btc_moving_average_days) × (count_of c.btc_moving_average_days ≤ rows))
      × ((2 ≤ count_of c.volatility_days) × (count_of c.volatility_days + 1 ≤ rows))
unfolding required_observations
required_observations-covers fl strip c rows h enough =
    let (short, long, average, volatility, two, less) = guards_passed fl strip c h in
    let some_average = positive_count c.btc_moving_average_days average in
    (
      ground arith,
      ground arith,
      ground arith,
      ground arith,
      (ground arith, ground arith),
      (ground arith, ground arith),
    )
