-- ===== src/Forward/Tables.antt =====
-- The rows of the forward tables of src/paper_store.py, their keys, and the queries on them. An
-- identifier that the code draws at random is an argument.
use text.Mathlib.Text.{◌==◌ as str_eq}
use hermes_crypto_lab.Base.{
  ℕ, String, Option, none, some, Bool, false, ◌||◌, ◌&&◌, List, [], ◌∷◌, ◌==◌, if◌then◌else◌,
  Result, ok, err, value_error,
}
use hermes_crypto_lab.Store.{
  ErrorOutcome, kill_switch_activated, data_quality_failure, reconciliation_failure,
  execution_error, release_provenance_failure, Run, Store, is_running, same_key, RunStatus,
}

-- A row of `forward_experiments`
pub record Experiment : Type 0 where
  pub experiment_id : String
  pub started_at : ℕ
  pub is_active : Bool

-- A row of `forward_schedule_windows`, whose primary key is `schedule_key`
pub record Window : Type 0 where
  pub schedule_key : ℕ
  pub scheduled_for : ℕ
  pub run_id : Option String
  pub outcome : String
  pub created_at : ℕ

-- A row of `forward_incidents`
pub record ForwardIncident : Type 0 where
  pub incident_id : String
  pub run_id : Option String
  pub incident_type : String
  pub scheduled_for : Option ℕ
  pub reason : String
  pub created_at : ℕ
  pub resolved_at : Option ℕ

pub record ForwardTables : Type 0 where
  pub experiments : List Experiment
  pub windows : List Window
  -- `forward_experiment_windows` and `forward_experiment_incidents`
  pub experiment_windows : List (String × ℕ)
  pub incidents : List ForwardIncident
  pub experiment_incidents : List (String × String)
  -- the column `run_id` of `paper_fills`
  pub fill_runs : List String

-- The text of an outcome of `ERROR_OUTCOMES`.
abbrev pub text_of : ErrorOutcome → String
text_of kill_switch_activated = "KILL_SWITCH_ACTIVATED"
text_of data_quality_failure = "DATA_QUALITY_FAILURE"
text_of reconciliation_failure = "RECONCILIATION_FAILURE"
text_of execution_error = "EXECUTION_ERROR"
text_of release_provenance_failure = "RELEASE_PROVENANCE_FAILURE"

-- `SELECT experiment_id FROM forward_experiments WHERE status='ACTIVE'`
unfoldable pub active_ids : List Experiment → List String
active_ids [] = []
active_ids (e ∷ es) =
    let rest = active_ids es in if e.is_active then e.experiment_id ∷ rest else rest

abbrev pub only : List String → Result String
only (id ∷ []) = ok id
only _ = err (value_error "Expected exactly one active forward experiment")

-- `_active_experiment_id`; the message ends with the number of the rows.
abbrev pub active_experiment_id : ForwardTables → Result String
active_experiment_id t = only (active_ids t.experiments)

-- The row of a window, and `forward_window_exists`
unfoldable pub window_exists : ℕ → List Window → Bool
window_exists k [] = false
window_exists k (w ∷ ws) = w.schedule_key == k || window_exists k ws

abbrev pub forward_window_exists : ℕ → ForwardTables → Bool
forward_window_exists k t = window_exists k t.windows

unfoldable pub window_at : ℕ → List Window → Option Window
window_at k [] = none
window_at k (w ∷ ws) = let rest = window_at k ws in if w.schedule_key == k then some w else rest

-- `paper_runs` with a schedule key and a status other than RUNNING. The UNIQUE key leaves at most
-- one row.
unfoldable pub settled_run : ℕ → List Run → Option Run
settled_run k [] = none
settled_run k (r ∷ rs) =
    let rest = settled_run k rs in
    if same_key r.schedule_key k then (if is_running r.status then rest else some r) else rest

-- What `schedule_final_outcome` answers: a window's outcome, or the status of a run.
pub data FinalOutcome : Type 0 where
  of_window : String → FinalOutcome
  of_status : RunStatus → FinalOutcome

abbrev pub status_if_settled : Option Run → Option FinalOutcome
status_if_settled none = none
status_if_settled (some r) = some (of_status r.status)

abbrev pub window_or_status : Option Window → Option Run → Option FinalOutcome
window_or_status (some w) run = some (of_window w.outcome)
window_or_status none run = status_if_settled run

unfoldable pub schedule_final_outcome : ℕ → Store → ForwardTables → Option FinalOutcome
schedule_final_outcome k s t = window_or_status (window_at k t.windows) (settled_run k s.runs)

-- The primary keys of the two tables that link rows to an experiment.
unfoldable pub has_window_link : String → ℕ → List (String × ℕ) → Bool
has_window_link e k [] = false
has_window_link e k ((e', k') ∷ rest) = (str_eq e' e && k' == k) || has_window_link e k rest

unfoldable pub has_incident_link : String → String → List (String × String) → Bool
has_incident_link e i [] = false
has_incident_link e i ((e', i') ∷ rest) = (str_eq e' e && str_eq i' i) || has_incident_link e i rest
