-- ===== src/Forward/Missed/Filing.antt =====
-- The two transactions of `record_missed_windows`, on tables whose links and incidents belong to
-- recorded windows.
use text.Mathlib.Text.{◌==◌ as str_eq}
use text.Mathlib.TextEquality.{eq_iff}
use hermes_crypto_lab.Base.{
  ℕ, ◌≡◌, ◌≢◌, refl, arith, String, Bool, true, false, ◌||◌, ◌&&◌, ◌∷◌, ◌==◌, if◌then◌else◌, ok,
  Bool-cases, inl, inr, ==_iff, or-false, or_right, or_split, and-true,
}
use hermes_crypto_lab.Schedule.{ScheduleConfig}
use hermes_crypto_lab.Schedule.Window.{IsSchedule}
use hermes_crypto_lab.Forward.Tables.{
  ForwardTables, Window, window_exists, has_window_link, has_incident_link,
}
use hermes_crypto_lab.Forward.Record.{incident_at, incident_id_exists, ignore_window_link}
use hermes_crypto_lab.Forward.Missed.Filed.{IsFiled}
use hermes_crypto_lab.Forward.Rows.{Grows, WithRow-Grows}
use hermes_crypto_lab.Forward.Missed.{file_committed, file_missed, missed_window, missed_incident}
use hermes_crypto_lab.Forward.Missed.Calendar.{target_at}

differ : (a b : ℕ) → (a == b) ≡ false → a ≢ b
differ a b h = ground arith

other_target :
    (c : ScheduleConfig) (valid : IsSchedule c) (j k : ℕ)
    → (j == k) ≡ false
    → (target_at c valid j == target_at c valid k) ≡ false
other_target c valid j k h = ground arith

module _ (c : ScheduleConfig) (valid : IsSchedule c) (new_id : ℕ → String)
    (distinct : (j k : ℕ) → j ≢ k → new_id j ≢ new_id k) (experiment : String) where
  linked_after :
      (t : ForwardTables) (key : ℕ)
      → IsFiled c valid new_id t
      → (e : String) (k : ℕ) → has_window_link e k ((experiment, key) ∷ t.experiment_windows) ≡ true
      → (key == k || window_exists k t.windows) ≡ true
  unfolding has_window_link
  linked_after t key filed e k there = elim (or_split (str_eq experiment e && key == k) _ there) [
    | inl here ↦ rw (and-true (str_eq experiment e) (key == k) here).1 refl
    | inr old ↦ or_right _ _ (filed.linked e k old)
  ]

  pub file_committed_lem :
      (n : Window) (t : ForwardTables)
      → IsFiled c valid new_id t
      → window_exists n.schedule_key t.windows ≡ false
      → (t' : ForwardTables) × (file_committed experiment n t ≡ ok t')
        × Grows t t'
        × IsFiled c valid new_id t'
        × (window_exists n.schedule_key t'.windows ≡ true)
  unfolding file_committed window_exists
  file_committed_lem n t filed away =
      (t', rw away refl, WithRow-Grows t t' n (refl, refl) away, filed', here)
    where
      t' : ForwardTables
      t' = record t {
        windows = n ∷ t.windows;
        experiment_windows = ignore_window_link experiment n.schedule_key t.experiment_windows;
      }

      here : window_exists n.schedule_key t'.windows ≡ true
      here = rw ((==_iff n.schedule_key n.schedule_key).1 refl) refl

      still_away : (k : ℕ) → window_exists k t'.windows ≡ false → window_exists k t.windows ≡ false
      still_away k h = (or-false (n.schedule_key == k) _ h).1

      linked' :
          (e : String) (k : ℕ) (b : Bool)
          → has_window_link e k (
              if b
              then t.experiment_windows
              else (experiment, n.schedule_key) ∷ t.experiment_windows)
            ≡ true
          → window_exists k t'.windows ≡ true
      linked' e k true there = or_right _ _ (filed.linked e k there)
      linked' e k false there = linked_after t n.schedule_key filed e k there

      filed' : IsFiled c valid new_id t'
      filed' = record {
        linked = λ e k there. linked' e k _ there;
        incident_linked = filed.incident_linked;
        missed = λ k h. filed.missed k (still_away k h);
        free = λ k h. filed.free k (still_away k h);
      }

  pub file_missed_lem :
      (key now : ℕ) (t : ForwardTables)
      → IsFiled c valid new_id t
      → window_exists key t.windows ≡ false
      → (t' : ForwardTables) × (file_missed experiment
            (new_id key)
            key
            (target_at c valid key)
            now
            t
          ≡ ok t')
        × Grows t t'
        × IsFiled c valid new_id t'
        × (window_exists key t'.windows ≡ true)
  unfolding file_missed window_exists incident_at incident_id_exists has_incident_link
  file_missed_lem key now t filed away = (
    t',
    rw (away, filed.free key away, filed.missed key away, no_link, no_incident_link) refl,
    WithRow-Grows t t' (missed_window key (target_at c valid key) now) (refl, refl) away,
    filed',
    rw ((==_iff key key).1 refl) refl,
  )
    where
      t' : ForwardTables
      t' = record t {
        windows = missed_window key (target_at c valid key) now ∷ t.windows;
        experiment_windows = (experiment, key) ∷ t.experiment_windows;
        incidents = missed_incident (new_id key) (target_at c valid key) now ∷ t.incidents;
        experiment_incidents = (experiment, new_id key) ∷ t.experiment_incidents;
      }

      no_link : has_window_link experiment key t.experiment_windows ≡ false
      no_link = elim (Bool-cases (has_window_link experiment key t.experiment_windows)) [
        | inl there ↦ absurd (cc (filed.linked experiment key there, away))
        | inr none_there ↦ none_there
      ]

      no_incident_link : has_incident_link experiment (new_id key) t.experiment_incidents ≡ false
      no_incident_link =
          elim (Bool-cases (has_incident_link experiment (new_id key) t.experiment_incidents)) [
            | inl there ↦
                absurd
                  (cc (filed.incident_linked experiment (new_id key) there, filed.free key away))
            | inr none_there ↦ none_there
          ]

      other_id : (k : ℕ) → (key == k) ≡ false → str_eq (new_id key) (new_id k) ≡ false
      other_id k other = elim (Bool-cases (str_eq (new_id key) (new_id k))) [
        | inl same ↦
            absurd (distinct key k (differ key k other) ((eq_iff (new_id key) (new_id k)).0 same))
        | inr differs ↦ differs
      ]

      incident_linked' :
          (e i : String)
          → has_incident_link e i t'.experiment_incidents ≡ true
          → incident_id_exists i t'.incidents ≡ true
      incident_linked' e i there =
          elim (or_split (str_eq experiment e && str_eq (new_id key) i) _ there) [
            | inl here ↦ rw (and-true (str_eq experiment e) (str_eq (new_id key) i) here).1 refl
            | inr old ↦ or_right _ _ (filed.incident_linked e i old)
          ]

      filed' : IsFiled c valid new_id t'
      filed' = record {
        linked = λ e k there. linked_after t key filed e k there;
        incident_linked = incident_linked';
        missed = λ k h.
            let (other, before) = or-false (key == k) _ h in
            rw (other_target c valid key k other, filed.missed k before) refl;
        free = λ k h.
            let (other, before) = or-false (key == k) _ h in
            rw (other_id k other, filed.free k before) refl;
      }
