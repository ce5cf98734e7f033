-- ===== src/Backtest/Rows.antt =====
-- The records of equity and the cash of `EventDrivenBacktester.run`.
use hermes_crypto_lab.Base.{
  ℕ, ◌≡◌, refl, sym, ap, ◌∙◌, String, Option, none, some, Bool, true, false, List, [], ◌∷◌, map,
  if◌then◌else◌, Result, ok, Bool-cases, inl, inr, >>=-eq-ok, ok_eq, raise_if-passed, All, keep_if,
}
use mathlib.Core.Path.{subst}
use hermes_crypto_lab.Float.{FloatOps, Number, f_zero}
use hermes_crypto_lab.Backtest.{extract_weights, weight_of}
use hermes_crypto_lab.Broker.Execute.{is_sell}
use hermes_crypto_lab.Backtest.Orders.{
  Order, EquityRow, Bar, State, Inputs, submit_order, create_each, create_orders, fill_sell,
  fill_buy, fill_each, required_cash, buy_scale, cash_slack, settle_cash, is_buy, execute_orders,
  reversed, fill_pending, equity_at, weight_or_zero,
}
use hermes_crypto_lab.Backtest.Engine.{
  record_bar, rebalance_if, submit, step, next_time, run_bars, initial_state, run,
}
use hermes_crypto_lab.Backtest.Timing.Fills.{FillsOn, rows_of, fill_sell-FillsOn, fill_buy-FillsOn}

module _ (fl : FloatOps) (inputs : Inputs fl.F) where
  open fl use {F, le, lt, minus, plus, over, times, absolute}

  abbrev pub IsSolvent : F → Type 0
  IsSolvent cash = lt cash (f_zero fl) ≡ false

  -- The rows so far are those of the given timestamps, newest first, and solvent; so is the state.
  pub record IsLogged (times : List ℕ) (st : State F) : Type 0 where
    pub logged : map (λ (r : EquityRow F). r.timestamp) st.equity_rows ≡ times
    pub solvent_rows : All (λ (r : EquityRow F). IsSolvent r.cash) st.equity_rows
    pub solvent : IsSolvent st.cash

  fill_each-rows :
      (bar : Bar F) (fill : Order F → State F → Result (State F)) (orders : List (Order F))
      (st st' : State F)
      → FillsOn fl inputs bar fill
      → fill_each fl inputs fill orders st ≡ ok st'
      → st'.equity_rows ≡ st.equity_rows
  unfolding fill_each
  fill_each-rows bar fill [] st st' on e = sym (ap (rows_of fl inputs) (ok_eq _ _ e))
  fill_each-rows bar fill (o ∷ rest) st st' on e =
      let (st1, one, e1) = >>=-eq-ok (fill o st) _ e in
      let (_, _, _, _, rows) = on o st st1 one in fill_each-rows bar fill rest st1 st' on e1 ∙ rows

  settled_cash-IsSolvent :
      (cash : F)
      → IsSolvent (f_zero fl)
      → IsSolvent (if lt cash (f_zero fl) then f_zero fl else cash)
  settled_cash-IsSolvent cash zero_solvent = elim (Bool-cases (lt cash (f_zero fl))) [
    | inl short ↦ rw short zero_solvent
    | inr enough ↦ rw (enough, enough) refl
  ]

  execute_orders-settles :
      (orders : List (Order F)) (bar : Bar F) (st st' : State F)
      → execute_orders fl inputs orders bar st ≡ ok st'
      → IsSolvent (f_zero fl)
      → (st'.equity_rows ≡ st.equity_rows) × IsSolvent st'.cash
  unfolding execute_orders settle_cash
  execute_orders-settles orders bar st st' e zero_solvent =
      let sells = keep_if (λ (o : Order F). is_sell o.side) orders in
      let buys = keep_if (is_buy fl inputs) orders in
      let (st1, sold, e1) =
        >>=-eq-ok (fill_each fl inputs (fill_sell fl inputs bar) sells st) _ e in
      let (required, _, e2) = >>=-eq-ok (required_cash fl inputs bar buys (f_zero fl)) _ e1 in
      let scale = buy_scale fl inputs st1.cash required in
      let (st2, bought, e3) =
        >>=-eq-ok (fill_each fl inputs (fill_buy fl inputs scale bar) buys st1) _ e2 in
      let (_, done) = raise_if-passed (lt st2.cash (cash_slack fl inputs)) _ _ e3 in
      let last = ok_eq _ _ done in
      (
        sym (ap (rows_of fl inputs) last)
            ∙ fill_each-rows bar (fill_buy fl inputs scale bar) buys st1 st2
                (fill_buy-FillsOn fl inputs scale bar) bought
            ∙ fill_each-rows bar (fill_sell fl inputs bar) sells st st1
                (fill_sell-FillsOn fl inputs bar) sold,
        subst (λ (s : State F). IsSolvent s.cash) last
            (settled_cash-IsSolvent st2.cash zero_solvent),
      )

  fill_pending-settles :
      (bar : Bar F) (pending : List (Order F)) (st st' : State F)
      → fill_pending fl inputs bar pending st ≡ ok st'
      → IsSolvent (f_zero fl)
      → IsSolvent st.cash
      → (st'.equity_rows ≡ st.equity_rows) × IsSolvent st'.cash
  unfolding fill_pending
  fill_pending-settles bar [] st st' e zero_solvent h = (
    sym (ap (rows_of fl inputs) (ok_eq _ _ e)),
    subst (λ (s : State F). IsSolvent s.cash) (ok_eq _ _ e) h,
  )
  fill_pending-settles bar (o ∷ rest) st st' e zero_solvent h =
      let orders = reversed fl inputs (o ∷ rest) [] in
      let (st1, one, e1) = >>=-eq-ok (execute_orders fl inputs orders bar st) _ e in
      let (rows, cash) = execute_orders-settles orders bar st st1 one zero_solvent in
      (
        sym (ap (rows_of fl inputs) (ok_eq _ _ e1)) ∙ rows,
        subst (λ (s : State F). IsSolvent s.cash) (ok_eq _ _ e1) cash,
      )

  create_each-IsLogged :
      (log : List ℕ) (equity : F) (weights : List (String × F)) (t : ℕ) (bar : Bar F)
      (assets : List String) (st : State F)
      → IsLogged log st
      → IsLogged log (create_each fl inputs equity weights t bar assets st)
  unfolding create_each
  create_each-IsLogged log equity weights t bar [] st h = h
  create_each-IsLogged log equity weights t bar (asset ∷ rest) st h =
      elim (Bool-cases (le (absolute d) inputs.config.quantity_tolerance)) [
        | inl small ↦ rw small (create_each-IsLogged log equity weights t bar rest st h)
        | inr large ↦ rw large (
            create_each-IsLogged log equity weights t bar rest
              (submit_order fl inputs d w asset t st)
              (record { logged = h.logged; solvent_rows = h.solvent_rows; solvent = h.solvent }))
      ]
    where
      w : F
      w = weight_or_zero fl inputs (weight_of fl asset weights)

      d : F
      d = minus (over (times equity w) (bar.prices asset)) (st.quantities asset)

  create_orders-IsLogged :
      (log : List ℕ) (weights : List (String × F)) (t : ℕ) (bar : Bar F) (st : State F)
      → IsLogged log st
      → IsLogged log (create_orders fl inputs weights t bar st)
  unfolding create_orders
  create_orders-IsLogged log weights t bar st h =
      create_each-IsLogged log (equity_at fl inputs bar st) weights t bar inputs.assets
        (record st { pending = [] })
        (record { logged = h.logged; solvent_rows = h.solvent_rows; solvent = h.solvent })

  rebalance_if-IsLogged :
      (log : List ℕ) (signal : Option (ℕ → Result (Option (List (String × Number F))))) (due : Bool)
      (bar : Bar F) (st st' : State F)
      → rebalance_if fl inputs signal due bar st ≡ ok st'
      → IsLogged log st
      → IsLogged log st'
  unfolding rebalance_if
  rebalance_if-IsLogged log none due bar st st' e h = subst (IsLogged log) (ok_eq _ _ e) h
  rebalance_if-IsLogged log (some signal) false bar st st' e h =
      subst (IsLogged log) (ok_eq _ _ e) h
  rebalance_if-IsLogged log (some signal) true bar st st' e h =
      let (raw, _, e1) = >>=-eq-ok (signal bar.timestamp) _ e in
      let (weights, _, e2) =
        >>=-eq-ok (extract_weights fl inputs.assets inputs.config.quantity_tolerance raw) _ e1 in
      let after = create_orders-IsLogged log weights bar.timestamp bar st h in
      subst (IsLogged log) (ok_eq _ _ e2) (record {
        logged = after.logged;
        solvent_rows = after.solvent_rows;
        solvent = after.solvent;
      })

  submit-IsLogged :
      (log : List ℕ) (first : Bool) (initial : Option (List (String × Number F))) (bar : Bar F)
      (next : Option ℕ) (st st' : State F)
      → submit fl inputs first initial bar next st ≡ ok st'
      → IsLogged log st
      → IsLogged log st'
  unfolding submit
  submit-IsLogged log true (some raw) bar next st st' e h =
      let (weights, _, e1) =
        >>=-eq-ok (extract_weights fl inputs.assets inputs.config.quantity_tolerance (some raw)) _
          e in
      subst (IsLogged log) (ok_eq _ _ e1) (create_orders-IsLogged log weights _ bar st h)
  submit-IsLogged log true none bar next st st' e h =
      rebalance_if-IsLogged log inputs.target_weight_function _ bar st st' e h
  submit-IsLogged log false initial bar next st st' e h =
      rebalance_if-IsLogged log inputs.target_weight_function _ bar st st' e h

  step-IsLogged :
      (log : List ℕ) (first : Bool) (bar : Bar F) (next : Option ℕ) (st st' : State F)
      → step fl inputs first bar next st ≡ ok st'
      → IsSolvent (f_zero fl)
      → IsLogged log st
      → IsLogged (bar.timestamp ∷ log) st'
  unfolding step record_bar
  step-IsLogged log first bar next st st' e zero_solvent h =
      let (st1, one, e1) = >>=-eq-ok (fill_pending fl inputs bar st.pending st) _ e in
      let (rows, cash) = fill_pending-settles bar st.pending st st1 one zero_solvent h.solvent in
      submit-IsLogged (bar.timestamp ∷ log) first inputs.initial_target_weights bar next
        (record_bar fl inputs bar st1) st' e1
        (record {
          logged = ap (λ (l : List ℕ). bar.timestamp ∷ l) (rw rows h.logged);
          solvent_rows = (cash, rw rows h.solvent_rows);
          solvent = cash;
        })

  abbrev timestamps : List (Bar F) → List ℕ
  timestamps = map (λ (bar : Bar F). bar.timestamp)

  run_bars-IsLogged :
      (log : List ℕ) (first : Bool) (bars : List (Bar F)) (st st' : State F)
      → run_bars fl inputs first bars st ≡ ok st'
      → IsSolvent (f_zero fl)
      → IsLogged log st
      → IsLogged (reversed fl inputs (timestamps bars) log) st'
  unfolding run_bars
  run_bars-IsLogged log first [] st st' e zero_solvent h = subst (IsLogged log) (ok_eq _ _ e) h
  run_bars-IsLogged log first (bar ∷ rest) st st' e zero_solvent h =
      let (st1, one, e1) = >>=-eq-ok (step fl inputs first bar (next_time fl inputs rest) st) _ e in
      run_bars-IsLogged (bar.timestamp ∷ log) false rest st1 st' e1 zero_solvent
        (step-IsLogged log first bar (next_time fl inputs rest) st st1 one zero_solvent h)

  -- When a backtest of an initial cash that is not negative ends with a result: it has one row of
  -- equity for each bar, in their order, and neither a row nor the end has negative cash.
  pub run-IsLogged :
      (bars : List (Bar F)) (st : State F)
      → IsSolvent (f_zero fl)
      → IsSolvent inputs.config.initial_cash
      → run fl inputs bars ≡ ok st
      → IsLogged (reversed fl inputs (map (λ (bar : Bar F). bar.timestamp) bars) []) st
  unfolding run
  run-IsLogged bars st zero_solvent funded e =
      run_bars-IsLogged [] true bars (initial_state fl inputs) st e zero_solvent
        (record { logged = refl; solvent_rows = tt; solvent = funded })
