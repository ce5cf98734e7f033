-- ===== src/Store/Recovery.antt =====
-- `recover_abandoned_runs` and its description row by row.
use text.Mathlib.Text.{◌==◌ as str_eq}
use text.Mathlib.TextEquality.{eq_iff}
use hermes_crypto_lab.Base.{
  ℕ, ◌≡◌, refl, sym, ap, ◌∙◌, String, Bool, true, false, List, [], ◌∷◌, map, if◌then◌else◌,
  Bool-cases, inl, inr, or-false,
}
use hermes_crypto_lab.Store.{
  Run, Store, is_running, mem_text, run_exists, update_run, recovered, running_ids, recover_each,
  recover_abandoned_runs,
}

-- No two rows have the same run.
abbrev pub IsDistinct : List Run → Type 0
IsDistinct [] = Unit
IsDistinct (r ∷ rs) = (run_exists r.run_id rs ≡ false) × IsDistinct rs

-- A running row is recovered, by whether the run left an equity snapshot; the others stay.
abbrev pub resolved : ℕ → List String → Run → Run
resolved now snapshots r =
    if is_running r.status then recovered (mem_text r.run_id snapshots) now r else r

update_run-absent :
    (id : String) (f : Run → Run) (rs : List Run)
    → run_exists id rs ≡ false
    → update_run id f rs ≡ rs
unfolding update_run run_exists
update_run-absent id f [] h = refl
update_run-absent id f (r ∷ rs) h =
    let (other, rest) = or-false (str_eq r.run_id id) (run_exists id rs) h in
    rw (other, update_run-absent id f rs rest) refl

running_ids-absent :
    (id : String) (rs : List Run) → run_exists id rs ≡ false → mem_text id (running_ids rs) ≡ false
unfolding running_ids run_exists mem_text
running_ids-absent id [] h = refl
running_ids-absent id (r ∷ rs) h =
    let (other, rest) = or-false (str_eq r.run_id id) (run_exists id rs) h in
    elim (Bool-cases (is_running r.status)) [
      | inl live ↦ rw (live, other, running_ids-absent id rs rest) refl
      | inr over ↦ rw over (running_ids-absent id rs rest)
    ]

str_eq-swap : (x y : String) → str_eq x y ≡ false → str_eq y x ≡ false
str_eq-swap x y h = elim (Bool-cases (str_eq y x)) [
  | inl same ↦ absurd (cc ((eq_iff x y).1 (sym ((eq_iff y x).0 same))))
  | inr other ↦ other
]

-- The loop leaves a row that it does not name where it is.
recover_each-cons :
    (now : ℕ) (snapshots ids : List String) (r : Run) (rs : List Run)
    → mem_text r.run_id ids ≡ false
    → recover_each now snapshots ids (r ∷ rs) ≡ r ∷ recover_each now snapshots ids rs
unfolding recover_each mem_text update_run
recover_each-cons now snapshots [] r rs h = refl
recover_each-cons now snapshots (id ∷ ids) r rs h =
    let (other, rest) = or-false (str_eq id r.run_id) (mem_text r.run_id ids) h in
    rw (str_eq-swap id r.run_id other) (recover_each-cons now snapshots ids r _ rest)

run_id-recovered : (b : Bool) (now : ℕ) (r : Run) → (recovered b now r).run_id ≡ r.run_id
unfolding recovered
run_id-recovered true now r = refl
run_id-recovered false now r = refl

recover_each-first :
    (now : ℕ) (snapshots ids : List String) (r : Run) (rs : List Run)
    → run_exists r.run_id rs ≡ false
    → recover_each now snapshots (r.run_id ∷ ids) (r ∷ rs)
      ≡ recover_each now snapshots ids (recovered (mem_text r.run_id snapshots) now r ∷ rs)
unfolding recover_each update_run
recover_each-first now snapshots ids r rs h = ap (recover_each now snapshots ids) (
    rw
      (
        (eq_iff r.run_id r.run_id).1 refl,
        update_run-absent r.run_id (recovered (mem_text r.run_id snapshots) now) rs h,
      )
      refl)

recover_each-map :
    (now : ℕ) (snapshots : List String) (rs : List Run)
    → IsDistinct rs
    → recover_each now snapshots (running_ids rs) rs ≡ map (resolved now snapshots) rs
unfolding recover_each running_ids update_run
recover_each-map now snapshots [] h = refl
recover_each-map now snapshots (r ∷ rs) h =
    let absent = running_ids-absent r.run_id rs h.0 in
    elim (Bool-cases (is_running r.status)) [
      | inl live ↦ rw live (
          recover_each-first now snapshots (running_ids rs) r rs h.0
          ∙ recovered_first (mem_text r.run_id snapshots) absent
              (recover_each-map now snapshots rs h.1))
      | inr over ↦ rw over (
          recover_each-cons now snapshots (running_ids rs) r rs absent
          ∙ ap (λ (l : List Run). r ∷ l) (recover_each-map now snapshots rs h.1))
    ]
  where
    recovered_first :
        (b : Bool)
        → mem_text r.run_id (running_ids rs) ≡ false
        → recover_each now snapshots (running_ids rs) rs ≡ map (resolved now snapshots) rs
        → recover_each now snapshots (running_ids rs) (recovered b now r ∷ rs)
          ≡ recovered b now r ∷ map (resolved now snapshots) rs
    recovered_first b absent rest =
        recover_each-cons now snapshots (running_ids rs) (recovered b now r) rs
          (rw (run_id-recovered b now r) absent)
        ∙ ap (λ (l : List Run). recovered b now r ∷ l) rest

resolved_not_running :
    (now : ℕ) (snapshots : List String) (r : Run)
    → is_running (resolved now snapshots r).status ≡ false
unfolding recovered
resolved_not_running now snapshots r = elim (Bool-cases (is_running r.status)) [
  | inl live ↦ rw live (settled (mem_text r.run_id snapshots))
  | inr over ↦ rw over over
]
  where
    settled : (b : Bool) → is_running (recovered b now r).status ≡ false
    settled true = refl
    settled false = refl

running_ids-resolved :
    (now : ℕ) (snapshots : List String) (rs : List Run)
    → running_ids (map (resolved now snapshots) rs) ≡ []
unfolding running_ids
running_ids-resolved now snapshots [] = refl
running_ids-resolved now snapshots (r ∷ rs) =
    rw (resolved_not_running now snapshots r) (running_ids-resolved now snapshots rs)

-- With distinct runs in the table, the recovery marks every running row, and no other: as
-- committed with its schedule where the run has an equity snapshot, and else as aborted without a
-- schedule. A second recovery changes nothing and counts none.
pub recover_abandoned_runs-map :
    (now later : ℕ) (s : Store)
    → IsDistinct s.runs
    → let s' : Store = record s { runs = map (resolved now s.equity_snapshots) s.runs } in
      ((recover_abandoned_runs now s).0 ≡ s') × (recover_abandoned_runs later s' ≡ (s', 0))
unfolding recover_abandoned_runs recover_each
recover_abandoned_runs-map now later s h = (
  rw (recover_each-map now s.equity_snapshots s.runs h) refl,
  rw (running_ids-resolved now s.equity_snapshots s.runs) refl,
)
