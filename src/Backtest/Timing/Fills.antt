-- ===== src/Backtest/Timing/Fills.antt =====
-- The timestamps of the fills of `execute_orders` of src/backtest.py.
use hermes_crypto_lab.Base.{
  ℕ, ◌≡◌, ◌<◌, ◌≤◌, refl, sym, ap, some, Bool, List, [], ◌∷◌, Result, ok, Bool-cases, inl, inr,
  >>=-eq-ok, ok_eq, raise_if-passed, All, arith, keep_if,
}
use mathlib.Core.Path.{subst}
use hermes_crypto_lab.Float.{FloatOps, floating, f_zero, f_min}
use hermes_crypto_lab.Costs.{execution_price, fee}
use hermes_crypto_lab.Broker.Execute.{is_sell}
use hermes_crypto_lab.Backtest.Orders.{
  EquityRow, Order, Fill, Bar, State, Inputs, costs, fill_sell, fill_buy, fill_each, required_cash,
  buy_scale, cash_slack, settle_cash, is_buy, execute_orders, reversed, fill_row,
}

-- Every fill so far is later than its order's signal, and every pending order is older than `now`.
pub record IsCausal {F : Type 0} (now : ℕ) (st : State F) : Type 0 where
  pub filled : All (λ (f : Fill F). f.order.signal_timestamp < f.fill_timestamp) st.fills
  pub waiting : All (λ (o : Order F). o.signal_timestamp < now) st.pending

module _ (fl : FloatOps) (inputs : Inputs fl.F) where
  open fl use {F, le, lt, minus, over, times, absolute}

  -- The orders of a list are older than `now`.
  abbrev pub Older : ℕ → List (Order F) → Type 0
  Older now orders = All (λ (o : Order F). o.signal_timestamp < now) orders

  abbrev pub Causal : List (Fill F) → Type 0
  Causal fills = All (λ (f : Fill F). f.order.signal_timestamp < f.fill_timestamp) fills

  pub Older-later :
      (now later : ℕ) (orders : List (Order F))
      → now ≤ later
      → Older now orders
      → Older later orders
  Older-later now later [] le h = tt
  Older-later now later (o ∷ rest) le h =
      (omega (arith, le, h.0), Older-later now later rest le h.1)

  Older-keep_if :
      (now : ℕ) (p : Order F → Bool) (orders : List (Order F))
      → Older now orders
      → Older now (keep_if p orders)
  Older-keep_if now p [] h = tt
  Older-keep_if now p (o ∷ rest) h = elim (Bool-cases (p o)) [
    | inl sells ↦ rw sells (h.0, Older-keep_if now p rest h.1)
    | inr buys ↦ rw buys (Older-keep_if now p rest h.1)
  ]

  pub Older-reversed :
      (now : ℕ) (orders done : List (Order F))
      → Older now orders
      → Older now done
      → Older now (reversed fl inputs orders done)
  Older-reversed now [] done h d = d
  Older-reversed now (o ∷ rest) done h d = Older-reversed now rest (o ∷ done) h.1 (h.0, d)

  -- A way to fill an order that adds one fill, of that order and on that bar, and no other row.
  abbrev pub FillsOn : Bar F → (Order F → State F → Result (State F)) → Type 0
  FillsOn bar fill =
      (order : Order F) (st st' : State F)
      → fill order st ≡ ok st'
      → (f : Fill F) × (f.order ≡ order)
        × (f.fill_timestamp ≡ bar.timestamp)
        × (st'.fills ≡ f ∷ st.fills)
        × (st'.equity_rows ≡ st.equity_rows)

  abbrev pub rows_of : State F → List (EquityRow F)
  rows_of st = st.equity_rows

  abbrev pub fills_of : State F → List (Fill F)
  fills_of st = st.fills

  pub fill_sell-FillsOn : (bar : Bar F) → FillsOn bar (fill_sell fl inputs bar)
  unfolding fill_sell
  fill_sell-FillsOn bar order st st' e =
      let market_price = bar.prices order.symbol in
      let quantity = f_min fl order.requested_quantity (st.quantities order.symbol) in
      let (price, _, e1) =
        >>=-eq-ok
          (execution_price fl inputs.upper (costs fl inputs) (floating market_price) (some "SELL"))
          _ e in
      let (charge, _, e2) =
        >>=-eq-ok (fee fl (costs fl inputs) (floating quantity) (floating price)) _ e1 in
      (
        fill_row fl inputs bar order quantity price charge (minus market_price price),
        refl,
        refl,
        sym (ap fills_of (ok_eq _ _ e2)),
        sym (ap rows_of (ok_eq _ _ e2)),
      )

  pub fill_buy-FillsOn : (scale : F) (bar : Bar F) → FillsOn bar (fill_buy fl inputs scale bar)
  unfolding fill_buy
  fill_buy-FillsOn scale bar order st st' e =
      let market_price = bar.prices order.symbol in
      let quantity = times order.requested_quantity scale in
      let (price, _, e1) =
        >>=-eq-ok
          (execution_price fl inputs.upper (costs fl inputs) (floating market_price) (some "BUY")) _
          e in
      let (charge, _, e2) =
        >>=-eq-ok (fee fl (costs fl inputs) (floating quantity) (floating price)) _ e1 in
      (
        fill_row fl inputs bar order quantity price charge (minus price market_price),
        refl,
        refl,
        sym (ap fills_of (ok_eq _ _ e2)),
        sym (ap rows_of (ok_eq _ _ e2)),
      )

  fill_each-Causal :
      (bar : Bar F) (fill : Order F → State F → Result (State F)) (orders : List (Order F))
      (st st' : State F)
      → FillsOn bar fill
      → fill_each fl inputs fill orders st ≡ ok st'
      → Older bar.timestamp orders
      → Causal st.fills
      → Causal st'.fills
  unfolding fill_each
  fill_each-Causal bar fill [] st st' on e old h = rw (← ok_eq _ _ e) h
  fill_each-Causal bar fill (o ∷ rest) st st' on e old h =
      let (st1, one, e1) = >>=-eq-ok (fill o st) _ e in
      let (f, order, time, row, _) = on o st st1 one in
      fill_each-Causal bar fill rest st1 st' on e1 old.1 (rw row ((rw (order, time) old.0), h))

  pub execute_orders-Causal :
      (orders : List (Order F)) (bar : Bar F) (st st' : State F)
      → execute_orders fl inputs orders bar st ≡ ok st'
      → Older bar.timestamp orders
      → Causal st.fills
      → Causal st'.fills
  unfolding execute_orders settle_cash
  execute_orders-Causal orders bar st st' e old h =
      let sells = keep_if (λ (o : Order F). is_sell o.side) orders in
      let buys = keep_if (is_buy fl inputs) orders in
      let (st1, sold, e1) =
        >>=-eq-ok (fill_each fl inputs (fill_sell fl inputs bar) sells st) _ e in
      let (required, _, e2) = >>=-eq-ok (required_cash fl inputs bar buys (f_zero fl)) _ e1 in
      let (st2, bought, e3) =
        >>=-eq-ok
          (fill_each fl inputs (fill_buy fl inputs (buy_scale fl inputs st1.cash required) bar) buys
            st1)
          _ e2 in
      let (_, done) = raise_if-passed (lt st2.cash (cash_slack fl inputs)) _ _ e3 in
      let first =
        fill_each-Causal bar (fill_sell fl inputs bar) sells st st1 (fill_sell-FillsOn bar) sold
          (Older-keep_if bar.timestamp _ orders old) h in
      subst Causal (ap fills_of (ok_eq _ _ done)) (
        fill_each-Causal bar _ buys st1 st2 (fill_buy-FillsOn _ bar) bought
          (Older-keep_if bar.timestamp _ orders old) first)
