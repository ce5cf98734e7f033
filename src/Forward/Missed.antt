-- ===== src/Forward/Missed.antt =====
-- `_scheduled_mondays` and `record_missed_windows` of src/forward_operations.py. The two `while`
-- loops run on fuel. `uuid.uuid4` is drawn once for a window, so the identifiers are a function of
-- its key. The schedule refuses no instant that has a zone, or each of them, so that the windows
-- may be listed before the first is recorded.
pub mod Calendar
pub mod Filed
pub mod Filing
pub mod Closes
use text.Mathlib.Text.{◌==◌ as str_eq}
use hermes_crypto_lab.Base.{
  ℕ, zero, suc, ◌+◌, ◌*◌, ◌/◌, String, Option, none, some, List, [], ◌∷◌, ◌==◌, ltb, leb,
  if◌then◌else◌, Result, ok, constraint_violation, raise_if,
}
use hermes_crypto_lab.Base
use hermes_crypto_lab.Time.{aware, day_ns, normalize, weekday}
use hermes_crypto_lab.Schedule.{ScheduleConfig, schedule_timestamps}
use hermes_crypto_lab.State.{Program, ◌>>=◌, ◌>>◌, returned, lift, read}
use hermes_crypto_lab.Store.{Run, RunStatus, executed, recovered_committed, failed}
use hermes_crypto_lab.Forward.{World, on_forward}
use hermes_crypto_lab.Forward.Tables.{
  ForwardTables, ForwardIncident, Window, active_experiment_id, window_exists, settled_run,
  has_window_link, has_incident_link, text_of,
}
use hermes_crypto_lab.Forward.Record.{incident_conflict, ignore_window_link}

abbrev pub week_ns : ℕ
week_ns = 7 * day_ns

-- `while cursor.weekday() != config.schedule_weekday: cursor += one day`
unfoldable pub first_day : (fuel : ℕ) → ℕ → ℕ → Option ℕ
first_day zero weekday_of cursor = none
first_day (suc fuel) weekday_of cursor =
    let rest = first_day fuel weekday_of (cursor + day_ns) in
    if weekday cursor == weekday_of then some cursor else rest

abbrev pub and_week : ℕ → Option (List ℕ) → Option (List ℕ)
and_week cursor none = none
and_week cursor (some later) = some (cursor ∷ later)

-- The days that `while cursor <= now.normalize()` visits.
unfoldable pub weeks : (fuel : ℕ) → ℕ → ℕ → Option (List ℕ)
weeks zero cursor last = none
weeks (suc fuel) cursor last =
    let rest = weeks fuel (cursor + week_ns) last in
    if leb cursor last then and_week cursor rest else some []

-- The body of that loop: start and target of a window that has ended.
unfoldable pub ended : ScheduleConfig → ℕ → List ℕ → Result (List (ℕ × ℕ))
ended config now [] = ok []
ended config now (cursor ∷ later) =
    Base.◌>>=◌ (schedule_timestamps config (aware cursor)) (λ (start, target, end).
      Base.◌>>=◌ (ended config now later)
        (λ rest. ok (if ltb end now then (start, target) ∷ rest else rest)))

abbrev pub visited : ScheduleConfig → ℕ → Option ℕ → Option (List ℕ)
visited config now none = none
visited config now (some first) = weeks (suc (now / week_ns + 1)) first (normalize now)

abbrev pub listed : ScheduleConfig → ℕ → Option (List ℕ) → Option (Result (List (ℕ × ℕ)))
listed config now none = none
listed config now (some days) = some (ended config now days)

-- `_scheduled_mondays`, or none when a loop is still running.
unfoldable pub scheduled_mondays : ScheduleConfig → ℕ → ℕ → Option (Result (List (ℕ × ℕ)))
scheduled_mondays config start now =
    listed config now (visited config now (first_day 7 config.schedule_weekday (normalize start)))

abbrev pub filled_outcome : ℕ → String
filled_outcome fill_count = if ltb 0 fill_count then "PAPER_TRADE_COMPLETED" else "NO_REBALANCE"

-- The outcome of a window whose run has ended.
abbrev pub committed_outcome : RunStatus → ℕ → String
committed_outcome executed fill_count = filled_outcome fill_count
committed_outcome recovered_committed fill_count = filled_outcome fill_count
committed_outcome (failed e) fill_count = text_of e
committed_outcome _ fill_count = "EXECUTION_ERROR"

-- `SELECT COUNT(*) FROM paper_fills WHERE run_id=?`
unfoldable pub fill_count : String → List String → ℕ
fill_count id [] = 0
fill_count id (x ∷ xs) = let rest = fill_count id xs in if str_eq x id then rest + 1 else rest

-- The transaction for a window with a run.
unfoldable pub file_committed : String → Window → ForwardTables → Result ForwardTables
file_committed experiment n t =
    Base.◌>>◌ (raise_if (window_exists n.schedule_key t.windows) constraint_violation) (
      ok (record t {
        windows = n ∷ t.windows;
        experiment_windows = ignore_window_link experiment n.schedule_key t.experiment_windows;
      }))

abbrev pub run_window : ℕ → ℕ → ℕ → Run → List String → Window
run_window now key target r fills = record {
  schedule_key = key;
  scheduled_for = target;
  run_id = some r.run_id;
  outcome = committed_outcome r.status (fill_count r.run_id fills);
  created_at = now;
}

abbrev pub missed_window : ℕ → ℕ → ℕ → Window
missed_window key target now = record {
  schedule_key = key;
  scheduled_for = target;
  run_id = none;
  outcome = "MISSED_SCHEDULE";
  created_at = now;
}

abbrev pub missed_incident : String → ℕ → ℕ → ForwardIncident
missed_incident id target now = record {
  incident_id = id;
  run_id = none;
  incident_type = "MISSED_SCHEDULE";
  scheduled_for = some target;
  reason =
      "Hermes or host did not complete a run inside the permitted UTC window; no backdated trade was created";
  created_at = now;
  resolved_at = none;
}

-- The transaction for a window without one.
unfoldable pub file_missed : String → String → ℕ → ℕ → ℕ → ForwardTables → Result ForwardTables
file_missed experiment id key target now t =
    Base.◌>>◌ (raise_if (window_exists key t.windows) constraint_violation) (
      Base.◌>>◌
        (raise_if (incident_conflict (missed_incident id target now) t.incidents)
          constraint_violation)
        (Base.◌>>◌
          (raise_if (has_window_link experiment key t.experiment_windows) constraint_violation)
          (Base.◌>>◌
            (raise_if (has_incident_link experiment id t.experiment_incidents) constraint_violation)
            (ok (record t {
              windows = missed_window key target now ∷ t.windows;
              experiment_windows = (experiment, key) ∷ t.experiment_windows;
              incidents = missed_incident id target now ∷ t.incidents;
              experiment_incidents = (experiment, id) ∷ t.experiment_incidents;
            })))))

module _ {F : Type 0} (experiment : String) (new_id : ℕ → String) (now : ℕ) where
  -- What the loop does for a window without a row, by the run that holds its key.
  abbrev pub file_by : ℕ → ℕ → Option Run → Program (World F) ℕ
  file_by key target none = do
    on_forward (file_missed experiment (new_id key) key target now)
    returned 1
  file_by key target (some r) = do
    fills ← read (λ w. w.forward.fill_runs)
    on_forward (file_committed experiment (run_window now key target r fills))
    returned 0

  abbrev pub unseen : ℕ → ℕ → Program (World F) ℕ
  unseen key target = do
    run ← read (λ w. settled_run key w.system.store.runs)
    file_by key target run

  unfoldable pub file_window : ℕ → ℕ → Program (World F) ℕ
  file_window key target = do
    seen ← read (λ w. window_exists key w.forward.windows)
    if seen then returned 0 else unseen key target

  -- The loop over the windows, with the number of those that were missed.
  unfoldable pub file_windows : List (ℕ × ℕ) → Program (World F) ℕ
  file_windows [] = returned 0
  file_windows ((key, target) ∷ later) = do
    created ← file_window key target
    rest ← file_windows later
    returned (created + rest)

module _ {F : Type 0} (config : ScheduleConfig) (new_id : ℕ → String) (now : ℕ) where
  abbrev pub file_listed : Result (List (ℕ × ℕ)) → Program (World F) ℕ
  file_listed windows = do
    experiment ← read (λ w. active_experiment_id w.forward)
    id ← lift experiment
    due ← lift windows
    file_windows id new_id now due

  abbrev pub file_if_listed : Option (Result (List (ℕ × ℕ))) → Option (Program (World F) ℕ)
  file_if_listed none = none
  file_if_listed (some windows) = some (file_listed windows)

  -- `record_missed_windows`, or none when a loop is still running.
  unfoldable pub record_missed_windows : (start : ℕ) → Option (Program (World F) ℕ)
  record_missed_windows start = file_if_listed (scheduled_mondays config start now)
