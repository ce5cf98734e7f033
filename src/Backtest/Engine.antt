-- ===== src/Backtest/Engine.antt =====
-- The loop of `EventDrivenBacktester.run` of src/backtest.py: the orders of a bar's signal are filled
-- on the next bar. The prices are those that the constructor has checked, in the order of time.
use hermes_crypto_lab.Base.{
  ℕ, ◌-◌, ◌/◌, String, Option, none, some, Bool, true, false, not, ◌&&◌, List, [], ◌∷◌,
  if◌then◌else◌, Result, ok, ◌>>=◌, leb, ◌==◌,
}
use hermes_crypto_lab.Time.{day_ns}
use hermes_crypto_lab.Float.{FloatOps, Number, f_zero}
use hermes_crypto_lab.Backtest.{extract_weights}
use hermes_crypto_lab.Backtest.Orders.{
  Bar, Inputs, PositionRow, State, create_orders, equity_at, fill_pending,
}

module _ (fl : FloatOps) (inputs : Inputs fl.F) where
  open fl use {F, lt, le, plus, minus, times, over, absolute, of_decimal}

  unfoldable pub position_rows :
      F → Bar F → List String → State F → List (PositionRow F) → List (PositionRow F)
  position_rows equity bar [] st rows = rows
  position_rows equity bar (asset ∷ rest) st rows =
      let value = times (st.quantities asset) (bar.prices asset) in
      position_rows equity bar rest st (
        record {
          timestamp = bar.timestamp;
          symbol = asset;
          quantity = st.quantities asset;
          market_value = value;
          weight = if lt (f_zero fl) equity then over value equity else f_zero fl;
        }
        ∷ rows)

  -- The records of a bar.
  unfoldable pub record_bar : Bar F → State F → State F
  record_bar bar st = record st {
    equity_rows =
        record { timestamp = bar.timestamp; equity = equity_at fl inputs bar st; cash = st.cash }
        ∷ st.equity_rows;
    positions = position_rows (equity_at fl inputs bar st) bar inputs.assets st st.positions;
  }

  abbrev pub same_week : ℕ × ℕ → ℕ × ℕ → Bool
  same_week a b = a.0 == b.0 && a.1 == b.1

  -- `_is_last_available_bar_of_week`, by the next bar's timestamp
  abbrev pub ends_week : ℕ → Option ℕ → Bool
  ends_week t none = false
  ends_week t (some next) = not (same_week (inputs.week_key t) (inputs.week_key next))

  -- `(timestamp - last_rebalance_timestamp).days >= rebalance_interval_days`
  abbrev pub is_due : ℕ → Option ℕ → Bool
  is_due t none = true
  is_due t (some last) = leb inputs.config.rebalance_interval_days ((t - last) / day_ns)

  abbrev pub rebalance :
      (ℕ → Result (Option (List (String × Number F)))) → Bar F → State F → Result (State F)
  rebalance signal bar st = do
    raw ← signal bar.timestamp
    weights ← extract_weights fl inputs.assets inputs.config.quantity_tolerance raw
    ok (record (create_orders fl inputs weights bar.timestamp bar st) {
      last_rebalance = some bar.timestamp;
    })

  unfoldable pub rebalance_if :
      Option (ℕ → Result (Option (List (String × Number F))))
      → Bool
      → Bar F
      → State F
      → Result (State F)
  rebalance_if none due bar st = ok st
  rebalance_if (some signal) due bar st = if due then rebalance signal bar st else ok st

  abbrev pub submitted_at : Option ℕ → ℕ → ℕ
  submitted_at none t = t
  submitted_at (some s) t = s

  abbrev pub regular : Bar F → Option ℕ → State F → Result (State F)
  regular bar next st =
      rebalance_if inputs.target_weight_function
        (ends_week bar.timestamp next && is_due bar.timestamp st.last_rebalance) bar st

  -- `if location == 0 and initial_target_weights is not None:` and the `elif`
  unfoldable pub submit :
      Bool → Option (List (String × Number F)) → Bar F → Option ℕ → State F → Result (State F)
  submit true (some raw) bar next st = do
    weights ← extract_weights fl inputs.assets inputs.config.quantity_tolerance (some raw)
    ok (
        create_orders fl inputs weights (submitted_at inputs.initial_signal_timestamp bar.timestamp)
          bar st)
  submit true none bar next st = regular bar next st
  submit false initial bar next st = regular bar next st

  -- One round of the loop over the prices.
  unfoldable pub step : Bool → Bar F → Option ℕ → State F → Result (State F)
  step first bar next st = do
    st' ← fill_pending fl inputs bar st.pending st
    submit first inputs.initial_target_weights bar next (record_bar bar st')

  abbrev pub next_time : List (Bar F) → Option ℕ
  next_time [] = none
  next_time (bar ∷ rest) = some bar.timestamp

  unfoldable pub run_bars : Bool → List (Bar F) → State F → Result (State F)
  run_bars first [] st = ok st
  run_bars first (bar ∷ rest) st = do
    st' ← step first bar (next_time rest) st
    run_bars false rest st'

  abbrev pub initial_state : State F
  initial_state = record {
    quantities = λ a. f_zero fl;
    cash = inputs.config.initial_cash;
    orders = [];
    fills = [];
    positions = [];
    equity_rows = [];
    pending = [];
    last_rebalance = none;
    next_order_id = 1;
  }

  -- `run`
  unfoldable pub run : List (Bar F) → Result (State F)
  run bars = run_bars true bars initial_state
