-- ===== src/Tests/Simulation.antt =====
-- A backtest of three bars in two weeks.
use hermes_crypto_lab.Base.{
  ◌*◌, ◌≡◌, ◌<◌, refl, String, none, some, false, List, [], ◌∷◌, Result, ok, err, length, arith, ℕ,
  All, ◌/◌,
}
use hermes_crypto_lab.Base.Int.{ℤ, pos, ◌+ℤ◌, ◌-ℤ◌}
use hermes_crypto_lab.Decimal.{dec_leb}
use hermes_crypto_lab.Float.{Number, floating, f_zero}
use hermes_crypto_lab.Time.{day_ns}
use hermes_crypto_lab.Costs.{execution_price, fee}
use hermes_crypto_lab.Backtest.{
  extract_weights, convert_weights, risky_total, weight_of, check_cash,
}
use hermes_crypto_lab.Backtest.Orders.{
  Bar, State, Inputs, Fill, holdings, create_each, create_orders, fill_sell, fill_buy, fill_each,
  required_cash, settle_cash, execute_orders, fill_pending,
}
use hermes_crypto_lab.Backtest.Engine.{
  position_rows, record_bar, rebalance_if, submit, step, run_bars, run, initial_state,
}
use hermes_crypto_lab.Backtest.Weights.{AreRead, IsAllocation, extract_weights-IsAllocation}
use hermes_crypto_lab.Backtest.Timing.{Increasing, run_fills_later}
use hermes_crypto_lab.Backtest.Rows.{IsLogged, run-IsLogged}
use hermes_crypto_lab.Tests.Fixed.{fixed}

abbrev half : List (String × Number ℤ)
half = ("BTC", floating (pos 5_000)) ∷ ("CASH", floating (pos 5_000)) ∷ []

abbrev inputs : Inputs ℤ
inputs = record {
  assets = "BTC" ∷ [];
  config = record {
    initial_cash = pos 10_000_000;
    fee_rate = pos 10;
    slippage_rate = pos 5;
    rebalance_interval_days = 7;
    quantity_tolerance = pos 0;
  };
  target_weight_function = some (λ t. ok (some half));
  initial_target_weights = none;
  initial_signal_timestamp = none;
  week_key = λ t. (0, t / (7 * day_ns));
  upper = λ s. s;
}

abbrev bar : ℕ → ℕ → Bar ℤ
bar day price = record { timestamp = day * day_ns; prices = λ s. pos price }

abbrev bars : List (Bar ℤ)
bars = bar 5 1_000_000 ∷ bar 6 1_100_000 ∷ bar 7 1_200_000 ∷ []

abbrev state_or : State ℤ → Result (State ℤ) → State ℤ
state_or st (ok st') = st'
state_or st (err e) = st

abbrev simulated : State ℤ
simulated = state_or (initial_state fixed inputs) (run fixed inputs bars)

ends : run fixed inputs bars ≡ ok simulated
unfolding run run_bars step submit rebalance_if record_bar position_rows fill_pending execute_orders
    settle_cash required_cash fill_each fill_buy fill_sell create_orders create_each holdings
    extract_weights convert_weights risky_total weight_of check_cash execution_price fee dec_leb
    ◌+ℤ◌ ◌-ℤ◌
ends = refl

-- The order of Sunday is filled on Monday.
one_fill : length simulated.fills ≡ 1
unfolding run run_bars step submit rebalance_if record_bar position_rows fill_pending execute_orders
    settle_cash required_cash fill_each fill_buy fill_sell create_orders create_each holdings
    extract_weights convert_weights risky_total weight_of check_cash execution_price fee dec_leb
    ◌+ℤ◌ ◌-ℤ◌
one_fill = refl

sorted : Increasing 0 bars
sorted = (omega arith, (omega arith, (omega arith, tt)))

run_fills_later_example :
    All (λ (f : Fill ℤ). f.order.signal_timestamp < f.fill_timestamp) simulated.fills
run_fills_later_example =
    run_fills_later fixed inputs bars simulated sorted
      (omega arith, (omega arith, (omega arith, tt))) ends

solvent_zero : fixed.lt (f_zero fixed) (f_zero fixed) ≡ false
unfolding dec_leb ◌+ℤ◌
solvent_zero = refl

funded : fixed.lt (pos 10_000_000) (f_zero fixed) ≡ false
unfolding dec_leb ◌+ℤ◌
funded = refl

run-IsLogged_example : IsLogged fixed inputs (7 * day_ns ∷ 6 * day_ns ∷ 5 * day_ns ∷ []) simulated
run-IsLogged_example = run-IsLogged fixed inputs bars simulated solvent_zero funded ends

abbrev halves : List (String × ℤ)
halves = ("BTC", pos 5_000) ∷ ("CASH", pos 5_000) ∷ []

accepts : extract_weights fixed ("BTC" ∷ []) (pos 0) (some half) ≡ ok halves
unfolding run run_bars step submit rebalance_if record_bar position_rows fill_pending execute_orders
    settle_cash required_cash fill_each fill_buy fill_sell create_orders create_each holdings
    extract_weights convert_weights risky_total weight_of check_cash execution_price fee dec_leb
    ◌+ℤ◌ ◌-ℤ◌
accepts = refl

extract_weights-IsAllocation_example :
    AreRead fixed ("BTC" ∷ []) (pos 0) half halves × IsAllocation fixed ("BTC" ∷ []) (pos 0) halves
extract_weights-IsAllocation_example =
    extract_weights-IsAllocation fixed ("BTC" ∷ []) (pos 0) half halves accepts
