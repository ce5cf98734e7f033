-- ===== src/PaperRun/Trade/Passed.antt =====
-- The parts of a committed transaction of `_execute`.
use hermes_crypto_lab.Base.{
  ◌≡◌, sym, List, ok, >>=-eq-ok, ok-snd, ok_eq, raise_if-passed, refl, some,
}
use hermes_crypto_lab.Float.{FloatOps}
use hermes_crypto_lab.Broker.{Books, Proposal}
use hermes_crypto_lab.Broker.Execute.{execute}
use hermes_crypto_lab.Store.{Store, mem_text, persist_equity, write_execution_outcome}
use hermes_crypto_lab.Store.Steps.{runs-write_if_given}
use hermes_crypto_lab.PaperRun.Act.{System}
use hermes_crypto_lab.PaperRun.Trade.{
  Request, Setting, execute_transaction, counted_outcome, raise_error,
}

module _ (fl : FloatOps) (setting : Setting fl) where
  open fl use {F}

  pub execute_transaction-passed :
      (req : Request) (ps : List (Proposal F)) (s : System F) (e : F) (t : System F)
      → execute_transaction fl setting req ps s ≡ ok (e, t)
      → (store : Store) × (store' : Store) × (books : Books F) × (persist_equity req.run_id s.store
          ≡ ok store)
        × (write_execution_outcome req.run_id (counted_outcome fl setting s.books books) store
            ≡ ok store')
        × (t ≡ record { store = store'; books = books })
  unfolding execute_transaction
  execute_transaction-passed req ps s e t h =
      let (_, _, h1) =
        >>=-eq-ok (raise_error fl setting (setting.execution_evidence_error req.now)) _ h in
      let (books, _, h2) = >>=-eq-ok (execute fl setting.config setting.market ps s.books) _ h1 in
      let (store, snapshot, h3) = >>=-eq-ok (persist_equity req.run_id s.store) _ h2 in
      let (store', outcome, h4) =
        >>=-eq-ok
          (write_execution_outcome req.run_id (counted_outcome fl setting s.books books) store) _
          h3 in
      (store, store', books, snapshot, outcome, sym (ok-snd _ _ h4))

  pub execute_transaction-runs :
      (req : Request) (ps : List (Proposal F)) (s : System F) (e : F) (t : System F)
      → execute_transaction fl setting req ps s ≡ ok (e, t)
      → t.store.runs ≡ s.store.runs
  unfolding persist_equity
  execute_transaction-runs req ps s e t h =
      let (store, store', books, snapshot, outcome, done) =
        execute_transaction-passed req ps s e t h in
      let (_, taken) =
        raise_if-passed (mem_text req.run_id s.store.equity_snapshots) _ _ snapshot in
      rw
        (
          done,
          runs-write_if_given req.run_id (some (counted_outcome fl setting s.books books)) store
              store' outcome,
          ← ok_eq _ _ taken,
        )
        refl
