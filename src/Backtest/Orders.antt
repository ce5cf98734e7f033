-- ===== src/Backtest/Orders.antt =====
-- The orders of a backtest, `create_orders` and `execute_orders` of src/backtest.py, and the state
-- of `EventDrivenBacktester.run` that they change. The ISO week of an instant is the library's and
-- a parameter.
use text.Mathlib.Text.{◌==◌ as str_eq}
use hermes_crypto_lab.Base.{
  ℕ, suc, String, Option, none, some, Bool, true, not, List, [], ◌∷◌, keep_if, if◌then◌else◌,
  Result, ok, runtime_error, raise_if, ◌>>=◌, ◌>>◌,
}
use hermes_crypto_lab.Base.Int.{negsuc}
use hermes_crypto_lab.Decimal.{finite}
use hermes_crypto_lab.Float.{FloatOps, Number, floating, f_zero, f_one, f_min}
use hermes_crypto_lab.Costs.{ExecutionCostModel, execution_price, fee}
use hermes_crypto_lab.Broker.{OrderSide, buy, sell}
use hermes_crypto_lab.Broker.Execute.{is_sell}
use hermes_crypto_lab.Backtest.{BacktestConfig, weight_of}

pub record Order (F : Type 0) : Type 0 where
  pub order_id : ℕ
  pub signal_timestamp : ℕ
  pub symbol : String
  pub side : OrderSide
  pub requested_quantity : F
  pub target_weight : F

pub record Fill (F : Type 0) : Type 0 where
  pub order : Order F
  pub fill_timestamp : ℕ
  pub filled_quantity : F
  pub market_price : F
  pub execution_price : F
  pub fee : F
  pub slippage_cost : F

pub record EquityRow (F : Type 0) : Type 0 where
  pub timestamp : ℕ
  pub equity : F
  pub cash : F

pub record PositionRow (F : Type 0) : Type 0 where
  pub timestamp : ℕ
  pub symbol : String
  pub quantity : F
  pub market_value : F
  pub weight : F

-- A row of the prices.
pub record Bar (F : Type 0) : Type 0 where
  pub timestamp : ℕ
  pub prices : String → F

-- The local variables of `run`; the records, newest first.
pub record State (F : Type 0) : Type 0 where
  pub quantities : String → F
  pub cash : F
  pub orders : List (Order F)
  pub fills : List (Fill F)
  pub positions : List (PositionRow F)
  pub equity_rows : List (EquityRow F)
  pub pending : List (Order F)
  pub last_rebalance : Option ℕ
  pub next_order_id : ℕ

-- What `run` reads: the assets, the configuration, its arguments, and library functions.
pub record Inputs (F : Type 0) : Type 0 where
  pub assets : List String
  pub config : BacktestConfig F
  pub target_weight_function : Option (ℕ → Result (Option (List (String × Number F))))
  pub initial_target_weights : Option (List (String × Number F))
  pub initial_signal_timestamp : Option ℕ
  pub week_key : ℕ → ℕ × ℕ
  pub upper : String → String

module _ (fl : FloatOps) (inputs : Inputs fl.F) where
  open fl use {F, lt, le, plus, minus, times, over, absolute, of_decimal}

  abbrev pub costs : ExecutionCostModel F
  costs = record { fee_rate = inputs.config.fee_rate; slippage_rate = inputs.config.slippage_rate }

  -- `cash + sum(quantities[asset] * prices[asset] for asset in assets)`
  unfoldable pub holdings : Bar F → (String → F) → List String → F → F
  holdings bar q [] total = total
  holdings bar q (asset ∷ rest) total =
      holdings bar q rest (plus total (times (q asset) (bar.prices asset)))

  abbrev pub equity_at : Bar F → State F → F
  equity_at bar st = plus st.cash (holdings bar st.quantities inputs.assets (f_zero fl))

  abbrev pub weight_or_zero : Option F → F
  weight_or_zero none = f_zero fl
  weight_or_zero (some w) = w

  abbrev pub submit_order : F → F → String → ℕ → State F → State F
  submit_order delta weight asset signal_timestamp st =
      let order : Order F = record {
        order_id = st.next_order_id;
        signal_timestamp = signal_timestamp;
        symbol = asset;
        side = if lt (f_zero fl) delta then buy else sell;
        requested_quantity = absolute delta;
        target_weight = weight;
      } in
      record st {
        orders = order ∷ st.orders;
        pending = order ∷ st.pending;
        next_order_id = suc st.next_order_id;
      }

  -- The loop of `create_orders`; the orders created are the new pending ones, newest first.
  unfoldable pub create_each : F → List (String × F) → ℕ → Bar F → List String → State F → State F
  create_each equity weights signal_timestamp bar [] st = st
  create_each equity weights signal_timestamp bar (asset ∷ rest) st =
      let weight = weight_or_zero (weight_of fl asset weights) in
      let delta = minus (over (times equity weight) (bar.prices asset)) (st.quantities asset) in
      create_each equity weights signal_timestamp bar rest (
        if le (absolute delta) inputs.config.quantity_tolerance
        then st
        else submit_order delta weight asset signal_timestamp st)

  -- `pending_orders = create_orders(...)`
  unfoldable pub create_orders : List (String × F) → ℕ → Bar F → State F → State F
  create_orders weights signal_timestamp bar st =
      create_each (equity_at bar st) weights signal_timestamp bar inputs.assets
        (record st { pending = [] })

  abbrev pub put : String → F → (String → F) → String → F
  put asset x q a = if str_eq asset a then x else q a

  abbrev pub snapped : F → F
  snapped x = if lt x inputs.config.quantity_tolerance then f_zero fl else x

  -- The record of a fill, with the slippage of one unit.
  abbrev pub fill_row : Bar F → Order F → F → F → F → F → Fill F
  fill_row bar order quantity price charge slippage = record {
    order = order;
    fill_timestamp = bar.timestamp;
    filled_quantity = quantity;
    market_price = bar.prices order.symbol;
    execution_price = price;
    fee = charge;
    slippage_cost = times quantity slippage;
  }

  unfoldable pub fill_sell : Bar F → Order F → State F → Result (State F)
  fill_sell bar order st = do
    let market_price = bar.prices order.symbol
    let quantity = f_min fl order.requested_quantity (st.quantities order.symbol)
    price ← execution_price fl inputs.upper costs (floating market_price) (some "SELL")
    charge ← fee fl costs (floating quantity) (floating price)
    ok (record st {
      cash = plus st.cash (minus (times quantity price) charge);
      quantities =
          put order.symbol (snapped (minus (st.quantities order.symbol) quantity)) st.quantities;
      fills = fill_row bar order quantity price charge (minus market_price price) ∷ st.fills;
    })

  unfoldable pub fill_buy : F → Bar F → Order F → State F → Result (State F)
  fill_buy scale bar order st = do
    let market_price = bar.prices order.symbol
    let quantity = times order.requested_quantity scale
    price ← execution_price fl inputs.upper costs (floating market_price) (some "BUY")
    charge ← fee fl costs (floating quantity) (floating price)
    ok (record st {
      cash = minus st.cash (plus (times quantity price) charge);
      quantities = put order.symbol (plus (st.quantities order.symbol) quantity) st.quantities;
      fills = fill_row bar order quantity price charge (minus price market_price) ∷ st.fills;
    })

  unfoldable pub fill_each :
      (Order F → State F → Result (State F)) → List (Order F) → State F → Result (State F)
  fill_each fill [] st = ok st
  fill_each fill (order ∷ rest) st = do st' ← fill order st; fill_each fill rest st'

  -- The cash that the buys need.
  unfoldable pub required_cash : Bar F → List (Order F) → F → Result F
  required_cash bar [] total = ok total
  required_cash bar (order ∷ rest) total = do
    price ← execution_price fl inputs.upper costs (floating (bar.prices order.symbol)) (some "BUY")
    required_cash bar rest
        (plus total (times (times order.requested_quantity price) (plus (f_one fl) costs.fee_rate)))

  abbrev pub buy_scale : F → F → F
  buy_scale cash required =
      if lt (f_zero fl) required then f_min fl (f_one fl) (over cash required) else f_one fl

  -- `-1e-8`
  abbrev pub cash_slack : F
  cash_slack = of_decimal (finite true 1 (negsuc 7))

  unfoldable pub settle_cash : State F → Result (State F)
  settle_cash st = do
    raise_if (lt st.cash cash_slack) (runtime_error "Negative cash invariant violated")
    ok (record st { cash = if lt st.cash (f_zero fl) then f_zero fl else st.cash })

  abbrev pub is_buy : Order F → Bool
  is_buy order = not (is_sell order.side)

  -- `execute_orders`
  unfoldable pub execute_orders : List (Order F) → Bar F → State F → Result (State F)
  execute_orders orders bar st = do
    st1 ← fill_each (fill_sell bar) (keep_if (λ o. is_sell o.side) orders) st
    required ← required_cash bar (keep_if is_buy orders) (f_zero fl)
    st2 ← fill_each (fill_buy (buy_scale st1.cash required) bar) (keep_if is_buy orders) st1
    settle_cash st2

  -- The pending orders in the order of their creation.
  abbrev pub reversed {ℓ} : {A : Type ℓ} → List A → List A → List A
  reversed [] done = done
  reversed (x ∷ xs) done = reversed xs (x ∷ done)

  -- `if pending_orders:`
  unfoldable pub fill_pending : Bar F → List (Order F) → State F → Result (State F)
  fill_pending bar [] st = ok st
  fill_pending bar (order ∷ rest) st = do
    st' ← execute_orders (reversed (order ∷ rest) []) bar st
    ok (record st' { pending = [] })
