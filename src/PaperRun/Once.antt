-- ===== src/PaperRun/Once.antt =====
-- `PaperTradingSystem.run` twice in one window of the schedule.
use text.Mathlib.TextEquality.{eq_iff}
use hermes_crypto_lab.Base.{
  ℕ, ◌≡◌, ◌≢◌, ◌⊎◌, refl, ap, none, some, true, false, List, ok, inl, inr, ==_iff, ok_eq,
  raise_if-passed,
}
use hermes_crypto_lab.Float.{FloatOps}
use hermes_crypto_lab.Broker.{Books, Proposal}
use hermes_crypto_lab.Broker.Proposals.Tables.{
  SameTables, SameTables-refl, make_proposals-SameTables,
}
use hermes_crypto_lab.Schedule.{scheduled_key}
use hermes_crypto_lab.Broker.Execute.{ExecutionOutcome}
use hermes_crypto_lab.Store.{
  Store, NewRun, insert_run, persist_equity, write_execution_outcome, schedule_exists, mem_text,
}
use hermes_crypto_lab.Store.Steps.{
  StoreStep, Reach, inserted, insert_run-passed, runs-write_if_given,
}
use hermes_crypto_lab.Store.Keys.{IsKeyed, Reach-IsKeyed, StoreStep-IsKeyed}
use hermes_crypto_lab.Store.Held.{
  key_held, IsHeld, IsHeld-schedule_exists, Reach-IsHeld, snapshots-write_if_given,
}
use hermes_crypto_lab.PaperRun.{
  Request, Setting, run, trade, add_run, propose_all, conclude, is_official,
}
use hermes_crypto_lab.PaperRun.Act.{System}
use hermes_crypto_lab.PaperRun.Trade.{execute_transaction}
use hermes_crypto_lab.PaperRun.Trade.Passed.{execute_transaction-passed}
use hermes_crypto_lab.PaperRun.Act.Binds.{on_store-bind, read-bind, on_books-bind, transaction-bind}
use hermes_crypto_lab.PaperRun.Moves.{Moves-conclude}
use hermes_crypto_lab.PaperRun.Branches.{IsTradable}
use hermes_crypto_lab.PaperRun.Window.{
  Stepwise, Stepwise-IsMove, run-Reach, run-SameTables, execute_transaction-Reach,
}

-- A run that was just inserted with a key holds it once its snapshot is written.
inserted-IsHeld :
    (n : NewRun) (k : ℕ) (o : ExecutionOutcome) (s t u v : Store)
    → n.schedule_key ≡ some k
    → t ≡ inserted n s
    → persist_equity n.run_id t ≡ ok u
    → write_execution_outcome n.run_id o u ≡ ok v
    → IsHeld k v
unfolding persist_equity key_held mem_text
inserted-IsHeld n k o s t u v key insert snapshot outcome =
    let (_, done) = raise_if-passed (mem_text n.run_id t.equity_snapshots) _ _ snapshot in
    rw
      (
        runs-write_if_given n.run_id (some o) u v outcome,
        snapshots-write_if_given n.run_id (some o) u v outcome,
        ← ok_eq _ _ done,
        insert,
        key,
        (==_iff k k).1 refl,
        (eq_iff n.run_id n.run_id).1 refl,
      )
      refl

-- The row of a run that trades.
abbrev trade_row : Request → ℕ → NewRun
trade_row req key = record {
  run_id = req.run_id;
  started_at = req.now;
  is_dry_run = req.is_dry_run;
  schedule_key = some key;
  attempted_schedule_key = none;
  official_scheduled = is_official req;
  release_provenance = req.release_provenance;
  allow_missing_release_provenance = false;
}

module _ (fl : FloatOps) (setting : Setting fl) where
  open fl use {F}

  trade-IsHeld :
      (req : Request) (key : ℕ) (s : System F)
      → IsKeyed s.store
      → SameTables s.books (trade fl setting req key s).0.books
        ⊎ IsHeld key (trade fl setting req key s).0.store
  unfolding trade add_run propose_all
  trade-IsHeld req key s keyed =
      on_store-bind (λ o. Q o.0) _ _ s (λ e. inl (SameTables-refl s.books))
        (λ store1 insert.
          on_books-bind (λ o. Q o.0) _ _ (record s { store = store1 })
            (λ e. inl (SameTables-refl s.books))
            (λ ps b proposed.
              read-bind (λ o. Q o.0) _ _ (record { store = store1; books = b })
                (transaction-bind (λ o. Q o.0) _ _ (record { store = store1; books = b })
                  (λ e. inl (
                    make_proposals-SameTables fl setting.config setting.market
                      setting.target_weights setting.idempotency_key setting.assets s.books b ps
                      proposed))
                  (λ e t traded. inr (concluded store1 insert ps b e t traded)))))
    where
      Q : System F → Type 0
      Q t = SameTables s.books t.books ⊎ IsHeld key t.store

      concluded :
          (store1 : Store)
          → insert_run setting.matches (trade_row req key) s.store ≡ ok store1
          → (ps : List (Proposal F)) (b : Books F) (e : F) (t : System F)
          → execute_transaction fl setting req ps (record { store = store1; books = b }) ≡ ok (e, t)
          → IsHeld key (conclude fl setting req ps b e t).0.store
      concluded store1 insert ps b e t traded =
          let (store2, store3, _, snapshot, outcome, done) =
            execute_transaction-passed fl setting req ps (record { store = store1; books = b }) e t
              traded in
          let keyed1 =
            StoreStep-IsKeyed s.store store1
              (StoreStep.insert setting.matches (trade_row req key) insert) keyed in
          Reach-IsHeld key t.store _
            (Moves-conclude fl setting Stepwise Stepwise-IsMove req ps b e t)
            (Reach-IsKeyed store1 t.store
              (execute_transaction-Reach fl setting req ps (record { store = store1; books = b }) e
                t traded)
              keyed1)
            (rw done (
              inserted-IsHeld (trade_row req key) key _ s.store store1 store2 store3 refl
                (insert_run-passed setting.matches (trade_row req key) s.store store1 insert).2
                snapshot outcome))

  -- When a run has changed the table of orders, from a store of distinct runs and schedule keys:
  -- for every store that operations, recoveries after a crash among them, lead to from the one it
  -- left, a run at an instant with the same schedule key leaves the tables of the books as they
  -- were.
  pub run_once :
      (req req' : Request) (s u : System F)
      → IsKeyed s.store
      → (run fl setting req s).0.books.orders ≢ s.books.orders
      → Reach (run fl setting req s).0.store u.store
      → scheduled_key setting.schedule req'.now ≡ scheduled_key setting.schedule req.now
      → SameTables u.books (run fl setting req' u).0.books
  run_once req req' s u keyed traded reach same = elim (run-SameTables fl setting req s) [
    | inl quiet ↦ absurd (traded quiet.orders)
    | inr (key, found, ran) ↦ elim (trade-IsHeld req key s keyed) [
      | inl quiet ↦ absurd (traded (rw ran quiet.orders))
      | inr held ↦ elim (run-SameTables fl setting req' u) [
        | inl quiet ↦ quiet
        | inr (key', found', _) ↦ absurd (
            clash key key' found.in_window found' (
              Reach-IsHeld key (run fl setting req s).0.store u.store reach
                (Reach-IsKeyed s.store _ (run-Reach fl setting req s) keyed) (rw ran held)))
      ]
    ]
  ]
    where
      clash :
          (key key' : ℕ)
          → scheduled_key setting.schedule req.now ≡ ok (some key)
          → IsTradable fl setting req' u key'
          → IsHeld key u.store
          → ⊥
      clash key key' window found held =
          let exists : schedule_exists key u.store ≡ true =
            IsHeld-schedule_exists key u.store held in
          let one : key ≡ key' = cc (window, same, found.in_window) in
          cc (ap (λ (k : ℕ). schedule_exists k u.store) one, exists, found.fresh)
