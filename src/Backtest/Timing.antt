-- ===== src/Backtest/Timing.antt =====
-- The timestamps of signals and fills in `EventDrivenBacktester.run`.
pub mod Fills
use hermes_crypto_lab.Base.{
  ℕ, ◌≡◌, ◌<◌, ◌≤◌, refl, sym, ap, String, Option, none, some, Bool, true, false, List, [], ◌∷◌,
  Result, ok, Bool-cases, inl, inr, >>=-eq-ok, ok_eq, raise_if-passed, All, arith, keep_if, suc,
}
use mathlib.Core.Path.{subst}
use hermes_crypto_lab.Float.{FloatOps, Number, floating, f_zero, f_min}
use hermes_crypto_lab.Costs.{execution_price, fee}
use hermes_crypto_lab.Backtest.{extract_weights, weight_of}
use hermes_crypto_lab.Broker.Execute.{is_sell}
use hermes_crypto_lab.Backtest.Orders.{
  Order, Fill, Bar, State, Inputs, costs, submit_order, create_each, create_orders, fill_sell,
  fill_buy, fill_each, required_cash, buy_scale, cash_slack, settle_cash, is_buy, execute_orders,
  reversed, fill_pending, equity_at, weight_or_zero, fill_row,
}
use hermes_crypto_lab.Backtest.Engine.{
  record_bar, rebalance_if, submitted_at, submit, step, next_time, run_bars, initial_state, run,
}
use Fills.{Older, Causal, Older-later, Older-reversed, fills_of, execute_orders-Causal, IsCausal}

-- The timestamps increase, from a lower bound on.
abbrev pub Increasing : {F : Type 0} → ℕ → List (Bar F) → Type 0
Increasing now [] = Unit
Increasing now (bar ∷ rest) = (now ≤ bar.timestamp) × Increasing (suc bar.timestamp) rest

module _ (fl : FloatOps) (inputs : Inputs fl.F) where
  open fl use {F, le, lt, minus, over, times, absolute}

  fill_pending-IsCausal :
      (bar : Bar F) (pending : List (Order F)) (st st' : State F)
      → fill_pending fl inputs bar pending st ≡ ok st'
      → Older fl inputs bar.timestamp pending
      → Causal fl inputs st.fills
      → Causal fl inputs st'.fills
  unfolding fill_pending
  fill_pending-IsCausal bar [] st st' e old h =
      subst (Causal fl inputs) (ap (fills_of fl inputs) (ok_eq _ _ e)) h
  fill_pending-IsCausal bar (o ∷ rest) st st' e old h =
      let orders = reversed fl inputs (o ∷ rest) [] in
      let (st1, one, e1) = >>=-eq-ok (execute_orders fl inputs orders bar st) _ e in
      subst (Causal fl inputs) (ap (fills_of fl inputs) (ok_eq _ _ e1)) (
        execute_orders-Causal fl inputs orders bar st st1 one
          (Older-reversed fl inputs bar.timestamp (o ∷ rest) [] old tt) h)

  -- What the orders of a bar leave alone, and when they were signalled.
  create_each-IsCausal :
      (equity : F) (weights : List (String × F)) (t now : ℕ) (bar : Bar F) (assets : List String)
      (st : State F)
      → t < now
      → IsCausal now st
      → IsCausal now (create_each fl inputs equity weights t bar assets st)
  unfolding create_each
  create_each-IsCausal equity weights t now bar [] st early h = h
  create_each-IsCausal equity weights t now bar (asset ∷ rest) st early h =
      elim (Bool-cases (le (absolute d) inputs.config.quantity_tolerance)) [
        | inl small ↦ rw small (create_each-IsCausal equity weights t now bar rest st early h)
        | inr large ↦ rw large (
            create_each-IsCausal equity weights t now bar rest
              (submit_order fl inputs d w asset t st) early
              (record { filled = h.filled; waiting = (early, h.waiting) }))
      ]
    where
      w : F
      w = weight_or_zero fl inputs (weight_of fl asset weights)

      d : F
      d = minus (over (times equity w) (bar.prices asset)) (st.quantities asset)

  pending-fill_pending :
      (bar : Bar F) (pending : List (Order F)) (st st' : State F)
      → st.pending ≡ pending
      → fill_pending fl inputs bar pending st ≡ ok st'
      → st'.pending ≡ []
  unfolding fill_pending
  pending-fill_pending bar [] st st' same e = let done : st ≡ st' = ok_eq _ _ e in rw (← done) same
  pending-fill_pending bar (o ∷ rest) st st' same e =
      let (st1, _, e1) =
        >>=-eq-ok (execute_orders fl inputs (reversed fl inputs (o ∷ rest) []) bar st) _ e in
      let done : record st1 { pending = [] } ≡ st' = ok_eq _ _ e1 in rw (← done) refl

  create_orders-IsCausal :
      (weights : List (String × F)) (t now : ℕ) (bar : Bar F) (st : State F)
      → t < now
      → Causal fl inputs st.fills
      → IsCausal now (create_orders fl inputs weights t bar st)
  unfolding create_orders
  create_orders-IsCausal weights t now bar st early h =
      create_each-IsCausal (equity_at fl inputs bar st) weights t now bar inputs.assets
        (record st { pending = [] }) early (record { filled = h; waiting = tt })

  -- A state after the fills of a bar, before the orders of its signal.
  abbrev Clear : State F → Type 0
  Clear st = Causal fl inputs st.fills × (st.pending ≡ [])

  Clear-IsCausal : (now : ℕ) (st : State F) → Clear st → IsCausal now st
  Clear-IsCausal now st h = record { filled = h.0; waiting = rw h.1 tt }

  rebalance_if-IsCausal :
      (signal : Option (ℕ → Result (Option (List (String × Number F))))) (due : Bool) (bar : Bar F)
      (st st' : State F)
      → rebalance_if fl inputs signal due bar st ≡ ok st'
      → Clear st
      → IsCausal (suc bar.timestamp) st'
  unfolding rebalance_if
  rebalance_if-IsCausal none due bar st st' e h =
      subst (IsCausal (suc bar.timestamp)) (ok_eq _ _ e) (Clear-IsCausal _ st h)
  rebalance_if-IsCausal (some signal) false bar st st' e h =
      subst (IsCausal (suc bar.timestamp)) (ok_eq _ _ e) (Clear-IsCausal _ st h)
  rebalance_if-IsCausal (some signal) true bar st st' e h =
      let (raw, _, e1) = >>=-eq-ok (signal bar.timestamp) _ e in
      let (weights, _, e2) =
        >>=-eq-ok (extract_weights fl inputs.assets inputs.config.quantity_tolerance raw) _ e1 in
      let causal =
        create_orders-IsCausal weights bar.timestamp (suc bar.timestamp) bar st (omega arith) h.0 in
      subst (IsCausal (suc bar.timestamp)) (ok_eq _ _ e2)
        (record { filled = causal.filled; waiting = causal.waiting })

  submit-IsCausal :
      (first : Bool) (initial : Option (List (String × Number F))) (bar : Bar F) (next : Option ℕ)
      (st st' : State F)
      → submitted_at fl inputs inputs.initial_signal_timestamp bar.timestamp ≤ bar.timestamp
      → submit fl inputs first initial bar next st ≡ ok st'
      → Clear st
      → IsCausal (suc bar.timestamp) st'
  unfolding submit
  submit-IsCausal true (some raw) bar next st st' early e h =
      let (weights, _, e1) =
        >>=-eq-ok (extract_weights fl inputs.assets inputs.config.quantity_tolerance (some raw)) _
          e in
      subst (IsCausal (suc bar.timestamp)) (ok_eq _ _ e1)
        (create_orders-IsCausal weights _ (suc bar.timestamp) bar st (omega (arith, early)) h.0)
  submit-IsCausal true none bar next st st' early e h =
      rebalance_if-IsCausal inputs.target_weight_function _ bar st st' e h
  submit-IsCausal false initial bar next st st' early e h =
      rebalance_if-IsCausal inputs.target_weight_function _ bar st st' e h

  step-IsCausal :
      (first : Bool) (bar : Bar F) (next : Option ℕ) (now : ℕ) (st st' : State F)
      → now ≤ bar.timestamp
      → submitted_at fl inputs inputs.initial_signal_timestamp bar.timestamp ≤ bar.timestamp
      → step fl inputs first bar next st ≡ ok st'
      → IsCausal now st
      → IsCausal (suc bar.timestamp) st'
  unfolding step record_bar
  step-IsCausal first bar next now st st' order early e h =
      let (st1, one, e1) = >>=-eq-ok (fill_pending fl inputs bar st.pending st) _ e in
      submit-IsCausal first inputs.initial_target_weights bar next (record_bar fl inputs bar st1)
        st' early e1
        (
          fill_pending-IsCausal bar st.pending st st1 one
              (Older-later fl inputs now bar.timestamp st.pending order h.waiting) h.filled,
          pending-fill_pending bar st.pending st st1 refl one,
        )

  run_bars-IsCausal :
      (first : Bool) (bars : List (Bar F)) (now : ℕ) (st st' : State F)
      → Increasing now bars
      → All
          (λ (bar : Bar F).
            submitted_at fl inputs inputs.initial_signal_timestamp bar.timestamp ≤ bar.timestamp)
          bars
      → run_bars fl inputs first bars st ≡ ok st'
      → IsCausal now st
      → Causal fl inputs st'.fills
  unfolding run_bars
  run_bars-IsCausal first [] now st st' sorted early e h =
      subst (Causal fl inputs) (ap (fills_of fl inputs) (ok_eq _ _ e)) h.filled
  run_bars-IsCausal first (bar ∷ rest) now st st' sorted early e h =
      let (st1, one, e1) = >>=-eq-ok (step fl inputs first bar (next_time fl inputs rest) st) _ e in
      run_bars-IsCausal false rest (suc bar.timestamp) st1 st' sorted.1 early.1 e1
        (step-IsCausal first bar (next_time fl inputs rest) now st st1 sorted.0 early.0 one h)

  -- On bars in the strict order of time, with an initial signal that is not later than a bar, when
  -- the backtest ends with a result: each of its fills lies strictly after the signal of its
  -- order.
  pub run_fills_later :
      (bars : List (Bar F)) (st : State F)
      → Increasing 0 bars
      → All
          (λ (bar : Bar F).
            submitted_at fl inputs inputs.initial_signal_timestamp bar.timestamp ≤ bar.timestamp)
          bars
      → run fl inputs bars ≡ ok st
      → All (λ (f : Fill F). f.order.signal_timestamp < f.fill_timestamp) st.fills
  unfolding run
  run_fills_later bars st sorted early e =
      run_bars-IsCausal true bars 0 (initial_state fl inputs) st sorted early e
        (record { filled = tt; waiting = tt })
