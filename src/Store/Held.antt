-- ===== src/Store/Held.antt =====
-- The windows of the schedule that committed runs hold, under every operation of the store.
use text.Mathlib.Text.{◌==◌ as str_eq}
use hermes_crypto_lab.Base.{
  ℕ, ◌≡◌, refl, sym, ap, ◌∙◌, String, Option, none, some, Bool, true, false, ◌||◌, ◌&&◌, List, [],
  ◌∷◌, map, if◌then◌else◌, Bool-cases, inl, inr, ok_eq, raise_if-passed, not, ◌==◌, ok,
}
use hermes_crypto_lab.Store.{
  Run, Store, is_running, mem_text, same_key, key_exists, schedule_exists, recovered, finished,
  finish_run, persist_equity, activate_kill_switch, reset_kill_switch, write_execution_outcome,
  outcome_of, outcome_number, write_or_compare, write_if_given,
}
use hermes_crypto_lab.Broker.Execute.{ExecutionOutcome}
use hermes_crypto_lab.Store.Recovery.{resolved, recover_abandoned_runs-map}
use hermes_crypto_lab.Store.Steps.{
  StoreStep, Reach, insert_run-passed, runs-finish_run, runs-write_if_given,
}
use hermes_crypto_lab.Store.Keys.{IsKeyed, Reach-IsKeyed, update_run-map}

-- Some row has the key, and its run has an equity snapshot.
unfoldable pub key_held : ℕ → List String → List Run → Bool
key_held k snapshots [] = false
key_held k snapshots (r ∷ rs) =
    (same_key r.schedule_key k && mem_text r.run_id snapshots) || key_held k snapshots rs

abbrev pub IsHeld : ℕ → Store → Type 0
IsHeld k s = key_held k s.equity_snapshots s.runs ≡ true

or_mono :
    (a b a' b' : Bool)
    → (a ≡ true → a' ≡ true)
    → (b ≡ true → b' ≡ true)
    → (a || b) ≡ true
    → (a' || b') ≡ true
or_mono true b a' b' p q h = rw (p refl) refl
or_mono false b true b' p q h = refl
or_mono false b false b' p q h = q h

key_held-exists :
    (k : ℕ) (snapshots : List String) (rs : List Run)
    → key_held k snapshots rs ≡ true
    → key_exists k rs ≡ true
unfolding key_held key_exists
key_held-exists k snapshots [] h = h
key_held-exists k snapshots (r ∷ rs) h =
    or_mono _ _ _ _ (weaken (same_key r.schedule_key k) (mem_text r.run_id snapshots))
      (key_held-exists k snapshots rs) h
  where
    weaken : (a b : Bool) → (a && b) ≡ true → a ≡ true
    weaken true b h = refl
    weaken false b h = h

pub IsHeld-schedule_exists : (k : ℕ) (s : Store) → IsHeld k s → schedule_exists k s ≡ true
IsHeld-schedule_exists k s h = key_held-exists k s.equity_snapshots s.runs h

-- A change of rows that keeps what a committed row holds.
abbrev Keeps : ℕ → List String → (Run → Run) → Type 0
Keeps k snapshots f =
    (r : Run)
    → (same_key r.schedule_key k && mem_text r.run_id snapshots) ≡ true
    → (same_key (f r).schedule_key k && mem_text (f r).run_id snapshots) ≡ true

key_held-map :
    (k : ℕ) (snapshots : List String) (f : Run → Run) (rs : List Run)
    → Keeps k snapshots f
    → key_held k snapshots rs ≡ true
    → key_held k snapshots (map f rs) ≡ true
unfolding key_held
key_held-map k snapshots f [] keeps h = h
key_held-map k snapshots f (r ∷ rs) keeps h =
    or_mono _ _ _ _ (keeps r) (key_held-map k snapshots f rs keeps) h

key_held-snapshot :
    (k : ℕ) (id : String) (snapshots : List String) (rs : List Run)
    → key_held k snapshots rs ≡ true
    → key_held k (id ∷ snapshots) rs ≡ true
unfolding key_held mem_text
key_held-snapshot k id snapshots [] h = h
key_held-snapshot k id snapshots (r ∷ rs) h =
    or_mono _ _ _ _
      (more (same_key r.schedule_key k) (str_eq id r.run_id) (mem_text r.run_id snapshots))
      (key_held-snapshot k id snapshots rs) h
  where
    more : (a b c : Bool) → (a && c) ≡ true → (a && (b || c)) ≡ true
    more true true c h = refl
    more true false c h = h
    more false b c h = h

no_key : (a : Bool) → (a && false) ≡ true → ⊥
no_key true h = cc h
no_key false h = cc h

Keeps-resolved : (now k : ℕ) (snapshots : List String) → Keeps k snapshots (resolved now snapshots)
unfolding recovered
Keeps-resolved now k snapshots r h = elim (Bool-cases (is_running r.status)) [
  | inl live ↦ rw live (committed (mem_text r.run_id snapshots) refl)
  | inr over ↦ rw over h
]
  where
    committed :
        (b : Bool)
        → mem_text r.run_id snapshots ≡ b
        → (same_key (recovered b now r).schedule_key k
            && mem_text (recovered b now r).run_id snapshots)
          ≡ true
    committed true e = h
    committed false e = absurd (no_key (same_key r.schedule_key k) (rw e at h))

-- A table of runs that is changed row by row, on the same snapshots.
map-IsHeld :
    (k : ℕ) (f : Run → Run) (s s' : Store)
    → Keeps k s.equity_snapshots f
    → s'.runs ≡ map f s.runs
    → s'.equity_snapshots ≡ s.equity_snapshots
    → IsHeld k s
    → IsHeld k s'
map-IsHeld k f s s' keeps runs snapshots h =
    rw (runs, snapshots) (key_held-map k s.equity_snapshots f s.runs keeps h)

Keeps-if :
    (k : ℕ) (snapshots : List String) (id : String) (f : Run → Run)
    → Keeps k snapshots f
    → Keeps k snapshots (λ r. if str_eq r.run_id id then f r else r)
Keeps-if k snapshots id f keeps r h = elim (Bool-cases (str_eq r.run_id id)) [
  | inl same ↦ rw same (keeps r h)
  | inr other ↦ rw other h
]

pub snapshots-write_if_given :
    (id : String) (o : Option ExecutionOutcome) (s s' : Store)
    → write_if_given id o s ≡ ok s'
    → s'.equity_snapshots ≡ s.equity_snapshots
unfolding write_execution_outcome
snapshots-write_if_given id none s s' e = rw (← ok_eq _ _ e) refl
snapshots-write_if_given id (some o) s s' e = written (outcome_of id s.outcomes) e
  where
    written :
        (existing : Option ExecutionOutcome)
        → write_or_compare existing id o s ≡ ok s'
        → s'.equity_snapshots ≡ s.equity_snapshots
    written none e = rw (← ok_eq _ _ e) refl
    written (some x) e =
        let (_, done) = raise_if-passed (not (outcome_number x == outcome_number o)) _ _ e in
        rw (← ok_eq _ _ done) refl

or_right : (a : Bool) {b : Bool} → b ≡ true → (a || b) ≡ true
or_right true h = refl
or_right false h = h

map_same : (rs : List Run) → map (λ (r : Run). r) rs ≡ rs
map_same [] = refl
map_same (r ∷ rs) = ap (λ (l : List Run). r ∷ l) (map_same rs)

StoreStep-IsHeld : (k : ℕ) (s s' : Store) → StoreStep s s' → IsKeyed s → IsHeld k s → IsHeld k s'
unfolding persist_equity activate_kill_switch reset_kill_switch key_held finish_run
StoreStep-IsHeld k s s' (StoreStep.insert matches n e) keyed h =
    rw (insert_run-passed matches n s s' e).2 (or_right _ h)
StoreStep-IsHeld k s s' (StoreStep.finish id status now message r o e) keyed h =
    map-IsHeld k _ s s'
      (Keeps-if k s.equity_snapshots id (finished status now message r) (λ x p. p))
      (runs-finish_run id status now message r o s s' e
        ∙ update_run-map id (finished status now message r) s.runs)
      (snapshots-write_if_given id o _ s' e) h
StoreStep-IsHeld k s s' (StoreStep.settle id o e) keyed h =
    map-IsHeld k (λ r. r) s s' (λ r p. p)
      (runs-write_if_given id (some o) s s' e ∙ sym (map_same s.runs))
      (snapshots-write_if_given id (some o) s s' e) h
StoreStep-IsHeld k s s' (StoreStep.snapshot id e) keyed h =
    let (_, done) = raise_if-passed (mem_text id s.equity_snapshots) _ _ e in
    rw (← ok_eq _ _ done) (key_held-snapshot k id s.equity_snapshots s.runs h)
StoreStep-IsHeld k s s' (StoreStep.halt reason id e) keyed h = rw (← e) h
StoreStep-IsHeld k s s' (StoreStep.reset r now e) keyed h =
    let (_, done) = raise_if-passed (not r.valid) _ _ e in rw (← ok_eq _ _ done) h
StoreStep-IsHeld k s s' (StoreStep.recover now e) keyed h =
    let recovery = (recover_abandoned_runs-map now now s keyed.distinct_runs).0 in
    map-IsHeld k (resolved now s.equity_snapshots) s s' (Keeps-resolved now k s.equity_snapshots)
      (rw (← e, recovery) refl) (rw (← e, recovery) refl) h

pub Reach-IsHeld : (k : ℕ) (s s' : Store) → Reach s s' → IsKeyed s → IsHeld k s → IsHeld k s'
Reach-IsHeld k s s' Reach.here keyed h = h
Reach-IsHeld k s s' (Reach.next {t} {u} before step) keyed h =
    StoreStep-IsHeld k t u step (Reach-IsKeyed s t before keyed) (Reach-IsHeld k s t before keyed h)
