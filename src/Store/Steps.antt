-- ===== src/Store/Steps.antt =====
-- The operations of the store as steps, and the states they lead to.
use hermes_crypto_lab.Base.{
  false, sym, ◌||◌, ◌&&◌, is_none, is_some, >>=-eq-ok, or-false, ◌∷◌, ℕ, Bool, ◌≡◌, refl, String,
  Option, none, some, not, ok, raise_if-passed, ok_eq, ◌==◌,
}
use hermes_crypto_lab.Broker.Execute.{ExecutionOutcome}
use hermes_crypto_lab.Store.{
  new_row, with_provenance, run_exists, key_conflict, mem_text, check_if_given, RunStatus, Store,
  NewRun, ReconciliationResult, insert_run, update_run, outcome_number, outcome_of,
  write_or_compare, write_execution_outcome, write_if_given, finished, finish_run,
  activate_kill_switch, reset_kill_switch, persist_equity, recover_abandoned_runs,
}

-- One operation of the store.
pub data StoreStep (s : Store) (s' : Store) : Type 0 where
  insert :
      (matches : ℕ → String → Bool) (n : NewRun) → insert_run matches n s ≡ ok s' → StoreStep s s'
  finish :
      (id : String) (status : RunStatus) (now : ℕ) (message : String) (r : ReconciliationResult)
      (o : Option ExecutionOutcome)
      → finish_run id status now message r o s ≡ ok s'
      → StoreStep s s'
  settle :
      (id : String) (o : ExecutionOutcome) → write_execution_outcome id o s ≡ ok s' → StoreStep s s'
  snapshot : (id : String) → persist_equity id s ≡ ok s' → StoreStep s s'
  halt :
      (reason : String) (id : Option String)
      → activate_kill_switch reason id s ≡ s'
      → StoreStep s s'
  reset : (r : ReconciliationResult) (now : ℕ) → reset_kill_switch r now s ≡ ok s' → StoreStep s s'
  recover : (now : ℕ) → (recover_abandoned_runs now s).0 ≡ s' → StoreStep s s'

pub data Reach (s : Store) : Store → Type 0 where
  here : Reach s s
  next : {t u : Store} → Reach s t → StoreStep t u → Reach s u

pub runs-write_if_given :
    (id : String) (o : Option ExecutionOutcome) (s s' : Store)
    → write_if_given id o s ≡ ok s'
    → s'.runs ≡ s.runs
unfolding write_execution_outcome
runs-write_if_given id none s s' e = rw (← ok_eq _ _ e) refl
runs-write_if_given id (some o) s s' e = written (outcome_of id s.outcomes) e
  where
    written :
        (existing : Option ExecutionOutcome)
        → write_or_compare existing id o s ≡ ok s'
        → s'.runs ≡ s.runs
    written none e = rw (← ok_eq _ _ e) refl
    written (some x) e =
        let (_, done) = raise_if-passed (not (outcome_number x == outcome_number o)) _ _ e in
        rw (← ok_eq _ _ done) refl

pub runs-finish_run :
    (id : String) (status : RunStatus) (now : ℕ) (message : String) (r : ReconciliationResult)
    (o : Option ExecutionOutcome) (s s' : Store)
    → finish_run id status now message r o s ≡ ok s'
    → s'.runs ≡ update_run id (finished status now message r) s.runs
unfolding finish_run
runs-finish_run id status now message r o s s' e = runs-write_if_given id o _ s' e

-- The table of runs and that of provenances after an insertion that was made.
abbrev pub inserted : NewRun → Store → Store
inserted n s = record s {
  runs = new_row n ∷ s.runs;
  release_provenance = with_provenance n.release_provenance n.run_id s.release_provenance;
}

-- What an insertion has found.
pub insert_run-passed :
    (matches : ℕ → String → Bool) (n : NewRun) (s s' : Store)
    → insert_run matches n s ≡ ok s'
    → (run_exists n.run_id s.runs ≡ false)
      × (key_conflict n.schedule_key s.runs ≡ false)
      × (s' ≡ inserted n s)
unfolding insert_run
insert_run-passed matches n s s' e =
    let (_, e1) =
      raise_if-passed
        (n.official_scheduled
          && is_none n.release_provenance
          && not n.allow_missing_release_provenance)
        _ _ e in
    let (_, _, e2) = >>=-eq-ok (check_if_given matches n.release_provenance) _ e1 in
    let (free, e3) =
      raise_if-passed (run_exists n.run_id s.runs || key_conflict n.schedule_key s.runs) _ _ e2 in
    let (_, done) =
      raise_if-passed (is_some n.release_provenance && mem_text n.run_id s.release_provenance) _ _
        e3 in
    let (new_id, new_key) =
      or-false (run_exists n.run_id s.runs) (key_conflict n.schedule_key s.runs) free in
    (new_id, new_key, sym (ok_eq _ _ done))

pub Reach-step : (s s' : Store) → StoreStep s s' → Reach s s'
Reach-step s s' step = next here step

pub Reach-trans : (s t u : Store) → Reach s t → Reach t u → Reach s u
Reach-trans s t _ before here = before
Reach-trans s t u before (next {t = m} after step) = next (Reach-trans s t m before after) step
