-- ===== src/Store/Keys.antt =====
-- The unique columns of the table of runs, under every operation of the store.
use text.Mathlib.Text.{◌==◌ as str_eq}
use hermes_crypto_lab.Base.{
  ℕ, ◌≡◌, refl, ap, ◌∙◌, String, Option, none, some, Bool, true, false, not, List, [], ◌∷◌, map,
  if◌then◌else◌, Bool-cases, inl, inr, ◌⊎◌, or-false, ok, raise_if-passed, ok_eq,
}
use hermes_crypto_lab.Store.{
  Run, Store, NewRun, is_running, mem_text, run_exists, same_key, key_exists, key_conflict,
  insert_run, update_run, finished, activate_kill_switch, reset_kill_switch, persist_equity,
  recovered,
}
use hermes_crypto_lab.Store.Steps.{
  StoreStep, Reach, runs-write_if_given, runs-finish_run, insert_run-passed,
}
use hermes_crypto_lab.Store.Recovery.{IsDistinct, resolved, recover_abandoned_runs-map}

abbrev pub AreKeysDistinct : List Run → Type 0
AreKeysDistinct [] = Unit
AreKeysDistinct (r ∷ rs) = (key_conflict r.schedule_key rs ≡ false) × AreKeysDistinct rs

pub record IsKeyed (s : Store) : Type 0 where
  pub distinct_runs : IsDistinct s.runs
  pub distinct_keys : AreKeysDistinct s.runs

-- A change of rows that keeps the run and keeps or drops the key.
abbrev pub KeepsColumns : (Run → Run) → Type 0
KeepsColumns f =
    (r : Run)
    → ((f r).run_id ≡ r.run_id)
      × (((f r).schedule_key ≡ r.schedule_key) ⊎ ((f r).schedule_key ≡ none))

-- Two tables with the same runs, in which the second has no key that the first has not.
abbrev pub Shrinks : List Run → List Run → Type 0
Shrinks rs ts =
    ((id : String) → run_exists id ts ≡ run_exists id rs)
    × ((k : ℕ) → key_exists k rs ≡ false → key_exists k ts ≡ false)

key_conflict-shrinks :
    (key key' : Option ℕ) (rs ts : List Run)
    → (key' ≡ key) ⊎ (key' ≡ none)
    → ((k : ℕ) → key_exists k rs ≡ false → key_exists k ts ≡ false)
    → key_conflict key rs ≡ false
    → key_conflict key' ts ≡ false
key_conflict-shrinks key none rs ts kept shrinks h = refl
key_conflict-shrinks key (some k) rs ts (inl same) shrinks h = shrinks k (rw (← same) at h)
key_conflict-shrinks key (some k) rs ts (inr dropped) shrinks h = absurd (cc dropped)

pub same_key-shrinks :
    (key key' : Option ℕ) (k : ℕ)
    → (key' ≡ key) ⊎ (key' ≡ none)
    → same_key key k ≡ false
    → same_key key' k ≡ false
same_key-shrinks key none k kept h = refl
same_key-shrinks key (some j) k (inl same) h = rw (← same) at h
same_key-shrinks key (some j) k (inr dropped) h = absurd (cc dropped)

Shrinks-cons :
    (r r' : Run) (rs ts : List Run)
    → r'.run_id ≡ r.run_id
    → (r'.schedule_key ≡ r.schedule_key) ⊎ (r'.schedule_key ≡ none)
    → Shrinks rs ts
    → Shrinks (r ∷ rs) (r' ∷ ts)
unfolding run_exists key_exists
Shrinks-cons r r' rs ts same kept h = (
  λ id. rw (same, h.0 id) refl,
  λ k e.
      let (other, rest) = or-false (same_key r.schedule_key k) (key_exists k rs) e in
      rw (same_key-shrinks r.schedule_key r'.schedule_key k kept other) (h.1 k rest),
)

pub Shrinks-map : (f : Run → Run) (rs : List Run) → KeepsColumns f → Shrinks rs (map f rs)
Shrinks-map f [] h = (λ id. refl, λ k e. e)
Shrinks-map f (r ∷ rs) h = Shrinks-cons r (f r) rs (map f rs) (h r).0 (h r).1 (Shrinks-map f rs h)

-- A change on the rows of one run is a change on all rows.
pub update_run-map :
    (id : String) (f : Run → Run) (rs : List Run)
    → update_run id f rs ≡ map (λ r. if str_eq r.run_id id then f r else r) rs
unfolding update_run
update_run-map id f [] = refl
update_run-map id f (r ∷ rs) = rw (update_run-map id f rs) refl

pub KeepsColumns-if :
    (id : String) (f : Run → Run)
    → KeepsColumns f
    → KeepsColumns (λ r. if str_eq r.run_id id then f r else r)
KeepsColumns-if id f h r = elim (Bool-cases (str_eq r.run_id id)) [
  | inl same ↦ rw same (h r)
  | inr other ↦ rw other (refl, inl refl)
]

map-AreKeyed :
    (f : Run → Run) (rs : List Run)
    → KeepsColumns f
    → IsDistinct rs
    → AreKeysDistinct rs
    → IsDistinct (map f rs) × AreKeysDistinct (map f rs)
map-AreKeyed f [] h d k = (tt, tt)
map-AreKeyed f (r ∷ rs) h d k =
    let (ids, keys) = map-AreKeyed f rs h d.1 k.1 in
    let (same_runs, fewer_keys) = Shrinks-map f rs h in
    (
      ((ap (λ (x : String). run_exists x (map f rs)) (h r).0 ∙ same_runs r.run_id ∙ d.0), ids),
      (
        key_conflict-shrinks r.schedule_key (f r).schedule_key rs (map f rs) (h r).1 fewer_keys k.0,
        keys,
      ),
    )

map-IsKeyed :
    (f : Run → Run) (s s' : Store)
    → KeepsColumns f
    → s'.runs ≡ map f s.runs
    → IsKeyed s
    → IsKeyed s'
map-IsKeyed f s s' kept same h =
    let (ids, keys) = map-AreKeyed f s.runs kept h.distinct_runs h.distinct_keys in
    record { distinct_runs = rw same ids; distinct_keys = rw same keys }

insert_run-IsKeyed :
    (matches : ℕ → String → Bool) (n : NewRun) (s s' : Store)
    → IsKeyed s
    → insert_run matches n s ≡ ok s'
    → IsKeyed s'
insert_run-IsKeyed matches n s s' h e =
    let (new_id, new_key, done) = insert_run-passed matches n s s' e in
    rw done (record {
      distinct_runs = (new_id, h.distinct_runs);
      distinct_keys = (new_key, h.distinct_keys);
    })

KeepsColumns-recovered : (b : Bool) (now : ℕ) → KeepsColumns (recovered b now)
unfolding recovered
KeepsColumns-recovered true now r = (refl, inl refl)
KeepsColumns-recovered false now r = (refl, inr refl)

pub KeepsColumns-resolved : (now : ℕ) (ids : List String) → KeepsColumns (resolved now ids)
KeepsColumns-resolved now ids r = elim (Bool-cases (is_running r.status)) [
  | inl live ↦ rw live (KeepsColumns-recovered (mem_text r.run_id ids) now r)
  | inr over ↦ rw over (refl, inl refl)
]

same_runs-IsKeyed : (s s' : Store) → s'.runs ≡ s.runs → IsKeyed s → IsKeyed s'
same_runs-IsKeyed s s' same h = record {
  distinct_runs = rw same h.distinct_runs;
  distinct_keys = rw same h.distinct_keys;
}

-- Every operation of the store keeps the runs distinct, and the schedule keys that are set.
pub StoreStep-IsKeyed : (s s' : Store) → StoreStep s s' → IsKeyed s → IsKeyed s'
unfolding persist_equity activate_kill_switch reset_kill_switch
StoreStep-IsKeyed s s' (StoreStep.insert matches n e) h = insert_run-IsKeyed matches n s s' h e
StoreStep-IsKeyed s s' (StoreStep.finish id status now message r o e) h =
    map-IsKeyed _ s s' (KeepsColumns-if id (finished status now message r) (λ x. (refl, inl refl)))
      (runs-finish_run id status now message r o s s' e
        ∙ update_run-map id (finished status now message r) s.runs)
      h
StoreStep-IsKeyed s s' (StoreStep.settle id o e) h =
    same_runs-IsKeyed s s' (runs-write_if_given id (some o) s s' e) h
StoreStep-IsKeyed s s' (StoreStep.snapshot id e) h =
    let (_, done) = raise_if-passed (mem_text id s.equity_snapshots) _ _ e in
    same_runs-IsKeyed s s' (rw (← ok_eq _ _ done) refl) h
StoreStep-IsKeyed s s' (StoreStep.halt reason id e) h = same_runs-IsKeyed s s' (rw (← e) refl) h
StoreStep-IsKeyed s s' (StoreStep.reset r now e) h =
    let (_, done) = raise_if-passed (not r.valid) _ _ e in
    same_runs-IsKeyed s s' (rw (← ok_eq _ _ done) refl) h
StoreStep-IsKeyed s s' (StoreStep.recover now e) h =
    map-IsKeyed (resolved now s.equity_snapshots) s s'
      (KeepsColumns-resolved now s.equity_snapshots)
      (rw (← e, (recover_abandoned_runs-map now now s h.distinct_runs).0) refl) h

-- Whatever operations follow, a table of distinct runs and distinct schedule keys stays one: no
-- window of the schedule is ever held by two runs.
pub Reach-IsKeyed : (s s' : Store) → Reach s s' → IsKeyed s → IsKeyed s'
Reach-IsKeyed s s' Reach.here h = h
Reach-IsKeyed s s' (Reach.next {t} {u} before step) h =
    StoreStep-IsKeyed t u step (Reach-IsKeyed s t before h)
