-- ===== src/Forward/Claims.antt =====
-- Which run a window of `forward_schedule_windows` belongs to, under every transaction of
-- src/paper_store.py and src/forward_operations.py on the table.
use text.Mathlib.Text.{◌==◌ as str_eq}
use text.Mathlib.TextEquality.{eq_iff}
use hermes_crypto_lab.Base.{
  ℕ, ◌≡◌, refl, String, Option, none, some, true, ◌&&◌, List, [], ◌∷◌, map, ◌==◌, ok, Bool-cases,
  inl, inr, >>=-eq-ok, raise_if-passed, ok_eq, and-true,
}
use hermes_crypto_lab.Forward.Tables.{
  ForwardTables, Window, ForwardIncident, window_exists, window_at, active_experiment_id,
  has_window_link, has_incident_link,
}
use hermes_crypto_lab.Forward.Record.{
  claim, claim_by, is_claimable, ignore_window, record_forward_window, record_forward_window_once,
  record_forward_incident, record_forward_incident_once, link_incident, incident_unless,
  incident_for, incident_conflict,
}
use hermes_crypto_lab.Forward.Missed.{file_committed, file_missed, missed_window, missed_incident}
use hermes_crypto_lab.Forward.Rows.{Grows, WithRow-Grows}
use hermes_crypto_lab.Forward.Steps.{
  ForwardStep, window, incident, committed, missed, ForwardReach, here, next, two_attempts-once,
}

abbrev pub holder : Option Window → Option String
holder none = none
holder (some w) = w.run_id

-- The run that a window belongs to.
abbrev pub holder_at : ℕ → ForwardTables → Option String
holder_at k t = holder (window_at k t.windows)

pub held-exists :
    (k : ℕ) (r : String) (ws : List Window)
    → holder (window_at k ws) ≡ some r
    → window_exists k ws ≡ true
unfolding window_at window_exists
held-exists k r [] h = absurd (cc h)
held-exists k r (w ∷ ws) h = elim (Bool-cases (w.schedule_key == k)) [
  | inl same ↦ rw same refl
  | inr other ↦ rw other (held-exists k r ws (rw other at h))
]

Grows-holder :
    (k : ℕ) (r : String) (t t' : ForwardTables)
    → Grows t t'
    → holder_at k t ≡ some r
    → holder_at k t' ≡ some r
Grows-holder k r t t' grows held = rw (grows.kept k (held-exists k r t.windows held)).1 held

ignored-holder :
    (k : ℕ) (r : String) (n : Window) (t : ForwardTables)
    → holder_at k t ≡ some r
    → holder (window_at k (ignore_window n t.windows)) ≡ some r
ignored-holder k r n t held = elim (Bool-cases (window_exists n.schedule_key t.windows)) [
  | inl there ↦ rw there held
  | inr away ↦ rw away (
      Grows-holder k r t (record t { windows = n ∷ t.windows })
        (WithRow-Grows t (record t { windows = n ∷ t.windows }) n (refl, refl) away) held)
]

claim-holder :
    (j : ℕ) (id outcome r : String) (w : Window)
    → w.run_id ≡ some r
    → (claim j id outcome w).run_id ≡ some r
unfolding claim
claim-holder j id outcome r w h =
    elim (Bool-cases (w.schedule_key == j && is_claimable w.run_id id)) [
      | inl claims ↦ rw claims (own (rw h at (and-true (w.schedule_key == j) _ claims).1))
      | inr leaves ↦ rw leaves h
    ]
  where
    own : str_eq r id ≡ true → some id ≡ some r
    own same = rw ((eq_iff r id).0 same) refl

key_of :
    (j : ℕ) (id outcome : String) (w : Window)
    → (claim j id outcome w).schedule_key ≡ w.schedule_key
unfolding claim
key_of j id outcome w = elim (Bool-cases (w.schedule_key == j && is_claimable w.run_id id)) [
  | inl claims ↦ rw claims refl
  | inr leaves ↦ rw leaves refl
]

claimed-holder :
    (k j : ℕ) (id outcome r : String) (ws : List Window)
    → holder (window_at k ws) ≡ some r
    → holder (window_at k (map (claim j id outcome) ws)) ≡ some r
unfolding window_at
claimed-holder k j id outcome r [] h = h
claimed-holder k j id outcome r (w ∷ ws) h = elim (Bool-cases (w.schedule_key == k)) [
  | inl same ↦ rw (key_of j id outcome w, same) (claim-holder j id outcome r w (rw same at h))
  | inr other ↦
      rw (key_of j id outcome w, other) (claimed-holder k j id outcome r ws (rw other at h))
]

record_forward_window-holder :
    (k : ℕ) (r : String) (n : Window) (t t' : ForwardTables)
    → record_forward_window n t ≡ ok t'
    → holder_at k t ≡ some r
    → holder_at k t' ≡ some r
unfolding record_forward_window record_forward_window_once
record_forward_window-holder k r n t t' e held =
    let (experiment, _, done) =
      >>=-eq-ok (active_experiment_id t) _
        (two_attempts-once (record_forward_window_once n) t t' e) in
    let same = ok_eq _ t' done in rw (← same) (by_run n.run_id (ignored-holder k r n t held))
  where
    by_run :
        (run : Option String)
        → holder (window_at k (ignore_window n t.windows)) ≡ some r
        → holder (window_at k (claim_by run n (ignore_window n t.windows))) ≡ some r
    by_run none h = h
    by_run (some id) h = claimed-holder k n.schedule_key id n.outcome r _ h

-- The incidents are other tables.
linked-windows :
    (experiment : String) (id : Option String) (is : List ForwardIncident) (t t' : ForwardTables)
    → link_incident experiment id is t ≡ ok t'
    → t'.windows ≡ t.windows
linked-windows experiment none is t t' e = absurd (cc e)
linked-windows experiment (some id) is t t' e = rw (← ok_eq _ _ e) refl

record_forward_incident-windows :
    (n : ForwardIncident) (t t' : ForwardTables)
    → record_forward_incident n t ≡ ok t'
    → t'.windows ≡ t.windows
unfolding record_forward_incident record_forward_incident_once
record_forward_incident-windows n t t' e =
    let (experiment, _, done) =
      >>=-eq-ok (active_experiment_id t) _
        (two_attempts-once (record_forward_incident_once n) t t' e) in
    by_found experiment (incident_for n.incident_type n.scheduled_for t.incidents) done
  where
    by_found :
        (experiment : String) (found : Option String)
        → incident_unless experiment n found t ≡ ok t'
        → t'.windows ≡ t.windows
    by_found experiment none done = linked-windows experiment _ _ t t' done
    by_found experiment (some id) done = linked-windows experiment (some id) t.incidents t t' done

file_committed-Grows :
    (e : String) (n : Window) (t t' : ForwardTables) → file_committed e n t ≡ ok t' → Grows t t'
unfolding file_committed
file_committed-Grows e n t t' call =
    let (away, done) = raise_if-passed (window_exists n.schedule_key t.windows) _ _ call in
    let same = ok_eq _ t' done in WithRow-Grows t t' n (rw (← same) refl, rw (← same) refl) away

file_missed-Grows :
    (e id : String) (key target now : ℕ) (t t' : ForwardTables)
    → file_missed e id key target now t ≡ ok t'
    → Grows t t'
unfolding file_missed
file_missed-Grows e id key target now t t' call =
    let (away, e1) = raise_if-passed (window_exists key t.windows) _ _ call in
    let (_, e2) =
      raise_if-passed (incident_conflict (missed_incident id target now) t.incidents) _ _ e1 in
    let (_, e3) = raise_if-passed (has_window_link e key t.experiment_windows) _ _ e2 in
    let (_, done) = raise_if-passed (has_incident_link e id t.experiment_incidents) _ _ e3 in
    let same = ok_eq _ t' done in
    WithRow-Grows t t' (missed_window key target now) (rw (← same) refl, rw (← same) refl) away

ForwardStep-holder_at :
    (k : ℕ) (r : String) (t t' : ForwardTables)
    → ForwardStep t t'
    → holder_at k t ≡ some r
    → holder_at k t' ≡ some r
ForwardStep-holder_at k r t t' (window n e) held = record_forward_window-holder k r n t t' e held
ForwardStep-holder_at k r t t' (incident n e) held =
    rw (record_forward_incident-windows n t t' e) held
ForwardStep-holder_at k r t t' (committed e n call) held =
    Grows-holder k r t t' (file_committed-Grows e n t t' call) held
ForwardStep-holder_at k r t t' (missed e id key target now call) held =
    Grows-holder k r t t' (file_missed-Grows e id key target now t t' call) held

-- A window of the forward experiment that belongs to a run belongs to that run after any sequence
-- of transactions: a later recording of the window, an incident or a recording of missed windows
-- never gives it to another run.
pub ForwardReach-holder_at :
    (k : ℕ) (r : String) (t t' : ForwardTables)
    → holder_at k t ≡ some r
    → ForwardReach t t'
    → holder_at k t' ≡ some r
ForwardReach-holder_at k r t _ held here = held
ForwardReach-holder_at k r t t' held (next {u = m} before step) =
    ForwardStep-holder_at k r m t' step (ForwardReach-holder_at k r t m held before)
