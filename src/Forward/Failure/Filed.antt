-- ===== src/Forward/Failure/Filed.antt =====
-- The two transactions that `commit_operational_failure` makes of the forward tables keep links and
-- incidents with recorded windows.
use text.Mathlib.Text.{◌==◌ as str_eq}
use text.Mathlib.TextEquality.{eq_iff}
use mathlib.Core.Path.{subst}
use hermes_crypto_lab.Base.{
  ℕ, ◌≡◌, refl, arith, String, Option, none, some, Bool, true, false, ◌&&◌, List, [], ◌∷◌, ◌==◌,
  map, if◌then◌else◌, ok, Bool-cases, inl, inr, ==_iff, or_right, or_split, and-true, >>=-eq-ok,
  ok_eq, ◌∙◌,
}
use hermes_crypto_lab.Schedule.{ScheduleConfig}
use hermes_crypto_lab.Schedule.Window.{IsSchedule}
use hermes_crypto_lab.Store.{same_key}
use hermes_crypto_lab.Forward.Tables.{
  ForwardTables, ForwardIncident, Window, window_exists, has_window_link, has_incident_link,
  active_experiment_id,
}
use hermes_crypto_lab.Forward.Record.{
  claim, claim_by, ignore_window, ignore_window_link, incident_at, incident_id_exists,
  link_incident, incident_unless, record_forward_window, record_forward_window_once,
  record_forward_incident, record_forward_incident_once,
}
use hermes_crypto_lab.Forward.Steps.{two_attempts-once}
use hermes_crypto_lab.Forward.Missed.Filed.{IsFiled}
use hermes_crypto_lab.Forward.Missed.Calendar.{target_at}

schedule_key-claim :
    (j : ℕ) (id outcome : String) (w : Window)
    → (claim j id outcome w).schedule_key ≡ w.schedule_key
unfolding claim
schedule_key-claim j id outcome w = ground arith

window_exists-claim :
    (k j : ℕ) (id outcome : String) (ws : List Window)
    → window_exists k (map (claim j id outcome) ws) ≡ window_exists k ws
unfolding window_exists
window_exists-claim k j id outcome [] = refl
window_exists-claim k j id outcome (w ∷ ws) =
    rw (schedule_key-claim j id outcome w, window_exists-claim k j id outcome ws) refl

window_exists-claim_by :
    (k : ℕ) (run : Option String) (n : Window) (ws : List Window)
    → window_exists k (claim_by run n ws) ≡ window_exists k ws
window_exists-claim_by k none n ws = refl
window_exists-claim_by k (some id) n ws = window_exists-claim k n.schedule_key id n.outcome ws

ignored-kept :
    (k : ℕ) (n : Window) (ws : List Window)
    → window_exists k ws ≡ true
    → window_exists k (ignore_window n ws) ≡ true
unfolding window_exists
ignored-kept k n ws h = elim (Bool-cases (window_exists n.schedule_key ws)) [
  | inl there ↦ rw there h
  | inr away ↦ rw away (or_right _ _ h)
]

ignored-there :
    (n : Window) (ws : List Window) → window_exists n.schedule_key (ignore_window n ws) ≡ true
unfolding window_exists
ignored-there n ws = elim (Bool-cases (window_exists n.schedule_key ws)) [
  | inl there ↦ rw there there
  | inr away ↦ rw (away, (==_iff n.schedule_key n.schedule_key).1 refl) refl
]

incident_at-exists :
    (type : String) (at : ℕ) (is : List ForwardIncident) (id : String)
    → incident_at type at is ≡ some id
    → incident_id_exists id is ≡ true
unfolding incident_at incident_id_exists
incident_at-exists type at [] id h = absurd (cc h)
incident_at-exists type at (i ∷ is) id h =
    elim (Bool-cases (str_eq i.incident_type type && same_key i.scheduled_for at)) [
      | inl here ↦
          let same : some i.incident_id ≡ some id = rw here at h in
          let own : i.incident_id ≡ id = cc same in rw ((eq_iff i.incident_id id).1 own) refl
      | inr other ↦ or_right _ _ (incident_at-exists type at is id (rw other at h))
    ]

module _ (c : ScheduleConfig) (valid : IsSchedule c) (new_id : ℕ → String) where
  -- Tables with a window more, claimed or not, and the link to it.
  pub record_forward_window-IsFiled :
      (n : Window) (t t' : ForwardTables)
      → record_forward_window n t ≡ ok t'
      → IsFiled c valid new_id t
      → IsFiled c valid new_id t'
  unfolding record_forward_window record_forward_window_once has_window_link
  record_forward_window-IsFiled n t t' e filed =
      let (experiment, _, done) =
        >>=-eq-ok (active_experiment_id t) _
          (two_attempts-once (record_forward_window_once n) t t' e) in
      subst (IsFiled c valid new_id) (ok_eq _ _ done) (after experiment)
    where
      kept :
          (k : ℕ)
          → window_exists k t.windows ≡ true
          → window_exists k (claim_by n.run_id n (ignore_window n t.windows)) ≡ true
      kept k h =
          rw (window_exists-claim_by k n.run_id n (ignore_window n t.windows))
            (ignored-kept k n t.windows h)

      away :
          (k : ℕ)
          → window_exists k (claim_by n.run_id n (ignore_window n t.windows)) ≡ false
          → window_exists k t.windows ≡ false
      away k h = elim (Bool-cases (window_exists k t.windows)) [
        | inl there ↦ absurd (cc (kept k there, h))
        | inr none_there ↦ none_there
      ]

      linked' :
          (experiment e : String) (k : ℕ) (b : Bool)
          → has_window_link e k (
              if b
              then t.experiment_windows
              else (experiment, n.schedule_key) ∷ t.experiment_windows)
            ≡ true
          → window_exists k (claim_by n.run_id n (ignore_window n t.windows)) ≡ true
      linked' experiment e k true there = kept k (filed.linked e k there)
      linked' experiment e k false there =
          elim (or_split (str_eq experiment e && n.schedule_key == k) _ there) [
            | inl here ↦
                let same =
                  (==_iff n.schedule_key k).0
                    (and-true (str_eq experiment e) (n.schedule_key == k) here).1 in
                subst
                  (λ j. window_exists j (claim_by n.run_id n (ignore_window n t.windows)) ≡ true)
                  same
                  (rw (window_exists-claim_by n.schedule_key n.run_id n (ignore_window n t.windows))
                    (ignored-there n t.windows))
            | inr old ↦ kept k (filed.linked e k old)
          ]

      after :
          (experiment : String)
          → IsFiled c valid new_id (record t {
            windows = claim_by n.run_id n (ignore_window n t.windows);
            experiment_windows = ignore_window_link experiment n.schedule_key t.experiment_windows;
          })
      after experiment = record {
        linked = λ e k there. linked' experiment e k _ there;
        incident_linked = filed.incident_linked;
        missed = λ k h. filed.missed k (away k h);
        free = λ k h. filed.free k (away k h);
      }

  -- A list of incidents that has the earlier ones, none of them of a missed window or with one of the
  -- identifiers that are still to be used.
  record Extends (before after : List ForwardIncident) : Type 0 where
    kept : (i : String) → incident_id_exists i before ≡ true → incident_id_exists i after ≡ true
    missed :
        (at : ℕ)
        → incident_at "MISSED_SCHEDULE" at before ≡ none
        → incident_at "MISSED_SCHEDULE" at after ≡ none
    free :
        (k : ℕ)
        → incident_id_exists (new_id k) before ≡ false
        → incident_id_exists (new_id k) after ≡ false

  Extends-refl : (is : List ForwardIncident) → Extends is is
  Extends-refl is = record { kept = λ i h. h; missed = λ at h. h; free = λ k h. h }

  Extends-add :
      (n : ForwardIncident) (is : List ForwardIncident)
      → str_eq n.incident_type "MISSED_SCHEDULE" ≡ false
      → ((k : ℕ) → str_eq n.incident_id (new_id k) ≡ false)
      → Extends is (n ∷ is)
  unfolding incident_at incident_id_exists
  Extends-add n is other_type other_id = record {
    kept = λ i h. or_right _ _ h;
    missed = λ at h. rw (other_type, h) refl;
    free = λ k h. rw (other_id k, h) refl;
  }

  link_incident-IsFiled :
      (experiment : String) (found : Option String) (is : List ForwardIncident)
      (t t' : ForwardTables)
      → link_incident experiment found is t ≡ ok t'
      → ((id : String) → found ≡ some id → incident_id_exists id is ≡ true)
      → Extends t.incidents is
      → IsFiled c valid new_id t
      → IsFiled c valid new_id t'
  unfolding has_incident_link
  link_incident-IsFiled experiment none is t t' e there more filed = absurd (cc e)
  link_incident-IsFiled experiment (some id) is t t' e there more filed =
      subst (IsFiled c valid new_id) (ok_eq _ _ e) (record {
        linked = filed.linked;
        incident_linked = λ e' i h. linked' e' i _ h;
        missed = λ k h. more.missed (target_at c valid k) (filed.missed k h);
        free = λ k h. more.free k (filed.free k h);
      })
    where
      linked' :
          (e' i : String) (b : Bool)
          → has_incident_link e' i
              (if b then t.experiment_incidents else (experiment, id) ∷ t.experiment_incidents)
            ≡ true
          → incident_id_exists i is ≡ true
      linked' e' i true h = more.kept i (filed.incident_linked e' i h)
      linked' e' i false h = elim (or_split (str_eq experiment e' && str_eq id i) _ h) [
        | inl here ↦
            subst (λ j. incident_id_exists j is ≡ true)
              ((eq_iff id i).0 (and-true (str_eq experiment e') (str_eq id i) here).1)
              (there id refl)
        | inr old ↦ more.kept i (filed.incident_linked e' i old)
      ]

  abbrev pub scheduled : ForwardIncident → ℕ → ForwardIncident
  scheduled m at = record m { scheduled_for = some at }

  -- Tables with an incident more, which is not of a missed window and has a new identifier.
  pub record_forward_incident-IsFiled :
      (m : ForwardIncident) (at : ℕ) (t t' : ForwardTables)
      → record_forward_incident (scheduled m at) t ≡ ok t'
      → incident_id_exists m.incident_id t.incidents ≡ false
      → str_eq m.incident_type "MISSED_SCHEDULE" ≡ false
      → ((k : ℕ) → str_eq m.incident_id (new_id k) ≡ false)
      → IsFiled c valid new_id t
      → IsFiled c valid new_id t'
  unfolding record_forward_incident record_forward_incident_once
  record_forward_incident-IsFiled m at t t' e new other_type other_id filed =
      let (experiment, _, done) =
        >>=-eq-ok (active_experiment_id t) _
          (two_attempts-once (record_forward_incident_once (scheduled m at)) t t' e) in
      unless experiment (incident_at m.incident_type at t.incidents) refl done
    where
      unless :
          (experiment : String) (found : Option String)
          → incident_at m.incident_type at t.incidents ≡ found
          → incident_unless experiment (scheduled m at) found t ≡ ok t'
          → IsFiled c valid new_id t'
      unless experiment (some id) earlier done =
          link_incident-IsFiled experiment (some id) t.incidents t t' done
            (λ i same. incident_at-exists m.incident_type at t.incidents i (earlier ∙ same))
            (Extends-refl t.incidents) filed
      unless experiment none earlier done =
          link_incident-IsFiled experiment
            (incident_at m.incident_type at (scheduled m at ∷ t.incidents))
            (scheduled m at ∷ t.incidents) t t' (rw (new, earlier) at done)
            (λ i same. incident_at-exists m.incident_type at (scheduled m at ∷ t.incidents) i same)
            (Extends-add (scheduled m at) t.incidents other_type other_id) filed
