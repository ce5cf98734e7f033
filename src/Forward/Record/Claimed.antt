-- ===== src/Forward/Record/Claimed.antt =====
-- `record_forward_window` and `record_forward_incident` of src/paper_store.py where they succeed.
use text.Mathlib.TextEquality.{eq_iff}
use hermes_crypto_lab.Base.{
  ℕ, ◌≡◌, refl, String, Option, none, some, true, false, List, [], ◌∷◌, map, ◌==◌, ok, Bool-cases,
  inl, inr, ==_iff,
}
use hermes_crypto_lab.Forward.Tables.{
  ForwardTables, ForwardIncident, Window, window_exists, window_at, active_experiment_id,
}
use hermes_crypto_lab.Forward.Record.{
  claim, is_claimable, ignore_window, ignore_window_link, record_forward_window,
  record_forward_window_once, record_forward_incident, record_forward_incident_once, incident_at,
  incident_for, incident_unless, written_at, ignore_incident_link, incident_id_exists,
}
use hermes_crypto_lab.Forward.Claims.{holder, holder_at}

-- A row of a window that a run holds, with the outcome.
abbrev pub ClaimedAt : ℕ → String → String → List Window → Type 0
ClaimedAt k id outcome ws =
    (w : Window) × (window_at k ws ≡ some w) × (w.run_id ≡ some id) × (w.outcome ≡ outcome)

abbrev ClaimableAt : ℕ → String → List Window → Type 0
ClaimableAt k id ws = (w : Window) × (window_at k ws ≡ some w) × (is_claimable w.run_id id ≡ true)

claim-ClaimedAt :
    (k : ℕ) (id outcome : String) (ws : List Window)
    → ClaimableAt k id ws
    → ClaimedAt k id outcome (map (claim k id outcome) ws)
unfolding window_at claim
claim-ClaimedAt k id outcome [] (w, found, free) = absurd (cc found)
claim-ClaimedAt k id outcome (v ∷ ws) (w, found, free) = elim (Bool-cases (v.schedule_key == k)) [
  | inl same ↦
      let first : some v ≡ some w = rw same at found in
      let claimable : is_claimable v.run_id id ≡ true = rw (some_eq v w first) free in
      (
        record v { run_id = some id; outcome = outcome },
        rw (same, claimable) (rw same refl),
        refl,
        refl,
      )
  | inr other ↦
      let (u, row, own, out) = claim-ClaimedAt k id outcome ws (w, rw other at found, free) in
      (u, rw other (rw other row), own, out)
]
  where
    some_eq : (a b : Window) → some a ≡ some b → a ≡ b
    some_eq a b h = cc h

exists-window_at :
    (k : ℕ) (ws : List Window)
    → window_exists k ws ≡ true
    → (w : Window) × (window_at k ws ≡ some w)
unfolding window_at window_exists
exists-window_at k [] there = absurd (cc there)
exists-window_at k (v ∷ ws) there = elim (Bool-cases (v.schedule_key == k)) [
  | inl same ↦ (v, rw same refl)
  | inr other ↦ let (w, found) = exists-window_at k ws (rw other at there) in (w, rw other found)
]

ignore_window-ClaimableAt :
    (n : Window) (id : String) (ws : List Window)
    → n.run_id ≡ some id
    → holder (window_at n.schedule_key ws) ≡ none
    → ClaimableAt n.schedule_key id (ignore_window n ws)
unfolding window_at window_exists
ignore_window-ClaimableAt n id ws own unheld = elim (Bool-cases (window_exists n.schedule_key ws)) [
  | inr away ↦ rw away (
    n,
    rw ((==_iff n.schedule_key n.schedule_key).1 refl) refl,
    rw (own, (eq_iff id id).1 refl) refl,
  )
  | inl there ↦
      let (w, found) = exists-window_at n.schedule_key ws there in
      let unclaimed : w.run_id ≡ none = rw found at unheld in rw there (w, found, rw unclaimed refl)
]

pub record_forward_window-ClaimedAt :
    (n : Window) (id experiment : String) (t : ForwardTables)
    → n.run_id ≡ some id
    → active_experiment_id t ≡ ok experiment
    → holder_at n.schedule_key t ≡ none
    → (t' : ForwardTables) × (record_forward_window n t ≡ ok t')
      × ClaimedAt n.schedule_key id n.outcome t'.windows
      × (t'.experiments ≡ t.experiments)
      × (t'.incidents ≡ t.incidents)
unfolding record_forward_window record_forward_window_once
record_forward_window-ClaimedAt n id experiment t own one unheld = (
  record t {
    windows = map (claim n.schedule_key id n.outcome) (ignore_window n t.windows);
    experiment_windows = ignore_window_link experiment n.schedule_key t.experiment_windows;
  },
  rw (one, own) refl,
  claim-ClaimedAt n.schedule_key id n.outcome _
      (ignore_window-ClaimableAt n id t.windows own unheld),
  refl,
  refl,
)

written_at_self :
    (n : ForwardIncident) (at : Option ℕ) (is : List ForwardIncident)
    → n.scheduled_for ≡ at
    → written_at at n (n ∷ is) ≡ some n.incident_id
unfolding incident_at
written_at_self n none is e = refl
written_at_self n (some k) is e =
    rw ((eq_iff n.incident_type n.incident_type).1 refl, e, (==_iff k k).1 refl) refl

abbrev linked : String → ForwardTables → List ForwardIncident → String → ForwardTables
linked experiment t is i = record t {
  incidents = is;
  experiment_incidents = ignore_incident_link experiment i t.experiment_incidents;
}

incident_unless-windows :
    (n : ForwardIncident) (experiment : String) (t : ForwardTables) (found : Option String)
    → incident_for n.incident_type n.scheduled_for t.incidents ≡ found
    → incident_id_exists n.incident_id t.incidents ≡ false
    → (t' : ForwardTables) × (incident_unless experiment n found t ≡ ok t')
      × (t'.windows ≡ t.windows)
incident_unless-windows n experiment t (some id) e new =
    (linked experiment t t.incidents id, refl, refl)
incident_unless-windows n experiment t none e new = (
  linked experiment t (n ∷ t.incidents) n.incident_id,
  rw (new, e, written_at_self n n.scheduled_for t.incidents refl) refl,
  refl,
)

-- An incident whose identifier is free is written, or found.
pub record_forward_incident-windows :
    (n : ForwardIncident) (experiment : String) (t : ForwardTables)
    → active_experiment_id t ≡ ok experiment
    → incident_id_exists n.incident_id t.incidents ≡ false
    → (t' : ForwardTables) × (record_forward_incident n t ≡ ok t') × (t'.windows ≡ t.windows)
unfolding record_forward_incident record_forward_incident_once
record_forward_incident-windows n experiment t one new =
    let (t', e, same) = incident_unless-windows n experiment t _ refl new in
    (t', rw (one, e) refl, same)
