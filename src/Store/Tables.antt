-- ===== src/Store/Tables.antt =====
-- The rows of the tables of src/paper_store.py that say what a run has done, how they are looked
-- up, and the checks of a release provenance.
use text.Mathlib.Text.{◌==◌ as str_eq}
use hermes_crypto_lab.Base.{
  ℕ, String, Option, none, some, Bool, true, false, not, ◌||◌, List, [], ◌∷◌, ◌==◌, Result, ok,
  value_error, raise_if, ◌>>◌,
}
use hermes_crypto_lab.Time.{Timestamp, aware}
use hermes_crypto_lab.Broker.Execute.{ExecutionOutcome}

-- `ERROR_OUTCOMES` of src/paper_forward.py, with which a run that failed is written.
pub data ErrorOutcome : Type 0 where
  kill_switch_activated data_quality_failure reconciliation_failure : ErrorOutcome
  execution_error release_provenance_failure : ErrorOutcome

pub data RunStatus : Type 0 where
  running executed no_rebalance dry_run data_halt kill_switch : RunStatus
  recovered_committed recovered_aborted : RunStatus
  failed : ErrorOutcome → RunStatus

pub data AccountStatus : Type 0 where
  active halted : AccountStatus

pub record ReconciliationResult : Type 0 where
  pub valid : Bool
  pub message : String

-- A row of `paper_runs`. A schedule key is the start of its window.
pub record Run : Type 0 where
  pub run_id : String
  pub started_at : ℕ
  pub completed_at : Option ℕ
  pub status : RunStatus
  pub is_dry_run : Bool
  pub official_scheduled : Bool
  pub schedule_key : Option ℕ
  pub attempted_schedule_key : Option ℕ
  pub message : Option String
  pub reconciliation : Option ReconciliationResult

pub record Incident : Type 0 where
  pub incident_run : Option String
  pub reason : String
  pub cleared_at : Option ℕ

pub record Provenance : Type 0 where
  pub git_commit : String
  pub git_dirty : Bool
  pub hardening_manifest_sha256 : String
  pub execution_protocol_version : String
  pub captured_at_utc : Timestamp

pub record Store : Type 0 where
  pub account_status : AccountStatus
  pub runs : List Run
  pub incidents : List Incident
  -- `paper_execution_outcomes`, by run
  pub outcomes : List (String × ExecutionOutcome)
  -- the runs of `equity_snapshots` and of `paper_run_release_provenance`
  pub equity_snapshots : List String
  pub release_provenance : List String

abbrev pub is_running : RunStatus → Bool
is_running running = true
is_running _ = false

abbrev pub is_active : AccountStatus → Bool
is_active active = true
is_active halted = false

-- `SELECT COUNT(*) FROM ... WHERE run_id=?`, as a test
unfoldable pub mem_text : String → List String → Bool
mem_text id [] = false
mem_text id (x ∷ xs) = str_eq x id || mem_text id xs

unfoldable pub run_exists : String → List Run → Bool
run_exists id [] = false
run_exists id (r ∷ rs) = str_eq r.run_id id || run_exists id rs

abbrev pub same_key : Option ℕ → ℕ → Bool
same_key none k = false
same_key (some j) k = j == k

unfoldable pub key_exists : ℕ → List Run → Bool
key_exists k [] = false
key_exists k (r ∷ rs) = same_key r.schedule_key k || key_exists k rs

-- `schedule_exists`
abbrev pub schedule_exists : ℕ → Store → Bool
schedule_exists k s = key_exists k s.runs

-- The UNIQUE column takes any number of NULLs.
abbrev pub key_conflict : Option ℕ → List Run → Bool
key_conflict none rs = false
key_conflict (some k) rs = key_exists k rs

abbrev pub execution_protocol_version : String
execution_protocol_version = "paper-exec-v3-ask-bid-minspread-utc0010"

abbrev pub is_naive : Timestamp → Bool
is_naive (aware t) = false
is_naive _ = true

-- The arguments of `insert_run`.
pub record NewRun : Type 0 where
  pub run_id : String
  pub started_at : ℕ
  pub is_dry_run : Bool
  pub schedule_key : Option ℕ
  pub attempted_schedule_key : Option ℕ
  pub official_scheduled : Bool
  pub release_provenance : Option Provenance
  pub allow_missing_release_provenance : Bool

-- `_validated_release_provenance_values`
unfoldable pub check_provenance : (ℕ → String → Bool) → Provenance → Result (Unit {0})
check_provenance matches p = do
  raise_if (not (matches 40 p.git_commit))
      (value_error "Release provenance Git commit must be an exact 40-character SHA")
  raise_if p.git_dirty (value_error "Official release provenance must be clean")
  raise_if (not (matches 64 p.hardening_manifest_sha256))
      (value_error "Release provenance hardening manifest hash is invalid")
  raise_if (not (str_eq p.execution_protocol_version execution_protocol_version))
      (value_error "Release provenance execution protocol is invalid")
  raise_if (is_naive p.captured_at_utc)
      (value_error "Release provenance timestamp must be timezone-aware")

abbrev pub check_if_given : (ℕ → String → Bool) → Option Provenance → Result (Unit {0})
check_if_given matches none = ok tt
check_if_given matches (some p) = check_provenance matches p
