-- ===== src/Store/Outcomes.antt =====
-- The table of outcomes, under every operation of the store.
use text.Mathlib.Text.{◌==◌ as str_eq}
use text.Mathlib.TextEquality.{eq_iff}
use hermes_crypto_lab.Base.{
  ◌≡◌, refl, String, Option, none, some, not, List, ◌∷◌, Bool-cases, inl, inr, ok, ◌==◌,
  raise_if-passed, ok_eq,
}
use hermes_crypto_lab.Broker.Execute.{ExecutionOutcome}
use hermes_crypto_lab.Store.{
  Store, outcome_number, outcome_of, write_or_compare, write_execution_outcome, write_if_given,
  finish_run, persist_equity, activate_kill_switch, reset_kill_switch, mem_text,
  recover_abandoned_runs,
}
use hermes_crypto_lab.Store.Steps.{StoreStep, Reach, insert_run-passed}

-- The outcomes of a later table agree with those of an earlier one.
abbrev pub Extends : List (String × ExecutionOutcome) → List (String × ExecutionOutcome) → Type 0
Extends before after =
    (id : String) (o : ExecutionOutcome)
    → outcome_of id before ≡ some o
    → outcome_of id after ≡ some o

Extends-new :
    (id : String) (o : ExecutionOutcome) (outcomes : List (String × ExecutionOutcome))
    → outcome_of id outcomes ≡ none
    → Extends outcomes ((id, o) ∷ outcomes)
unfolding outcome_of
Extends-new id o outcomes fresh x p h = elim (Bool-cases (str_eq id x)) [
  | inl same ↦ absurd (cc ((eq_iff id x).0 same))
  | inr other ↦ rw other h
]

write_or_compare-Extends :
    (id : String) (o : ExecutionOutcome) (s s' : Store) (existing : Option ExecutionOutcome)
    → outcome_of id s.outcomes ≡ existing
    → write_or_compare existing id o s ≡ ok s'
    → Extends s.outcomes s'.outcomes
write_or_compare-Extends id o s s' none fresh e =
    rw (← ok_eq _ _ e) (Extends-new id o s.outcomes fresh)
write_or_compare-Extends id o s s' (some x) found e =
    let (_, done) = raise_if-passed (not (outcome_number x == outcome_number o)) _ _ e in
    rw (← ok_eq _ _ done) (λ y p h. h)

write_if_given-Extends :
    (id : String) (o : Option ExecutionOutcome) (s s' : Store)
    → write_if_given id o s ≡ ok s'
    → Extends s.outcomes s'.outcomes
unfolding write_execution_outcome
write_if_given-Extends id none s s' e = rw (← ok_eq _ _ e) (λ y p h. h)
write_if_given-Extends id (some o) s s' e =
    write_or_compare-Extends id o s s' (outcome_of id s.outcomes) refl e

-- An operation that does not write outcomes.
same_outcomes-Extends : (s s' : Store) → s'.outcomes ≡ s.outcomes → Extends s.outcomes s'.outcomes
same_outcomes-Extends s s' same id o h = rw same h

StoreStep-Extends : (s s' : Store) → StoreStep s s' → Extends s.outcomes s'.outcomes
unfolding persist_equity activate_kill_switch reset_kill_switch recover_abandoned_runs finish_run
StoreStep-Extends s s' (StoreStep.insert matches n e) =
    same_outcomes-Extends s s' (rw (insert_run-passed matches n s s' e).2 refl)
StoreStep-Extends s s' (StoreStep.finish id status now message r o e) =
    write_if_given-Extends id o _ s' e
StoreStep-Extends s s' (StoreStep.settle id o e) = write_if_given-Extends id (some o) s s' e
StoreStep-Extends s s' (StoreStep.snapshot id e) =
    let (_, done) = raise_if-passed (mem_text id s.equity_snapshots) _ _ e in
    same_outcomes-Extends s s' (rw (← ok_eq _ _ done) refl)
StoreStep-Extends s s' (StoreStep.halt reason id e) = same_outcomes-Extends s s' (rw (← e) refl)
StoreStep-Extends s s' (StoreStep.reset r now e) =
    let (_, done) = raise_if-passed (not r.valid) _ _ e in
    same_outcomes-Extends s s' (rw (← ok_eq _ _ done) refl)
StoreStep-Extends s s' (StoreStep.recover now e) = same_outcomes-Extends s s' (rw (← e) refl)

-- Whatever operations follow, the outcome that is recorded for a run stays the one recorded.
pub Reach-outcome_of :
    (s s' : Store) (id : String) (o : ExecutionOutcome)
    → Reach s s'
    → outcome_of id s.outcomes ≡ some o
    → outcome_of id s'.outcomes ≡ some o
Reach-outcome_of s s' id o Reach.here h = h
Reach-outcome_of s s' id o (Reach.next {t} {u} before step) h =
    StoreStep-Extends t u step id o (Reach-outcome_of s t id o before h)
