-- ===== src/Forward/Missed/Filed.antt =====
-- The tables that `record_missed_windows` of src/forward_operations.py finds and leaves.
use hermes_crypto_lab.Base.{ℕ, ◌≡◌, String, none, true, false}
use hermes_crypto_lab.Schedule.{ScheduleConfig}
use hermes_crypto_lab.Schedule.Window.{IsSchedule}
use hermes_crypto_lab.Forward.Tables.{
  ForwardTables, window_exists, has_window_link, has_incident_link,
}
use hermes_crypto_lab.Forward.Record.{incident_at, incident_id_exists}
use hermes_crypto_lab.Forward.Missed.Calendar.{target_at}

-- A link to a window or an incident belongs to a row; a window without a row has no incident, and
-- the identifier for its incident is free.
pub record IsFiled (c : ScheduleConfig) (valid : IsSchedule c) (new_id : ℕ → String)
    (t : ForwardTables) : Type 0 where
  pub linked :
      (e : String) (k : ℕ)
      → has_window_link e k t.experiment_windows ≡ true
      → window_exists k t.windows ≡ true
  pub incident_linked :
      (e i : String)
      → has_incident_link e i t.experiment_incidents ≡ true
      → incident_id_exists i t.incidents ≡ true
  pub missed :
      (k : ℕ)
      → window_exists k t.windows ≡ false
      → incident_at "MISSED_SCHEDULE" (target_at c valid k) t.incidents ≡ none
  pub free :
      (k : ℕ)
      → window_exists k t.windows ≡ false
      → incident_id_exists (new_id k) t.incidents ≡ false
