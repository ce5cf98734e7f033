-- ===== src/Forward/Failure.antt =====
-- `commit_operational_failure` of src/paper_forward.py: a run that fails before it trades, such as
-- one without market data. Its identifier and that of the incident are drawn at random, and
-- arguments.
pub mod Quiet
pub mod Filed
pub mod Leaves
pub mod Retry
pub mod Closes
use hermes_crypto_lab.Base.{
  ℕ, String, Option, none, some, Bool, true, false, ◌||◌, ◌&&◌, if◌then◌else◌, ok,
}
use hermes_crypto_lab.Time.{aware}
use hermes_crypto_lab.Float.{FloatOps}
use hermes_crypto_lab.Schedule.{scheduled_key, schedule_target_from_start}
use hermes_crypto_lab.State.{Program, ◌>>=◌, ◌>>◌, returned, lift, read}
use hermes_crypto_lab.Store.{
  ErrorOutcome, kill_switch_activated, data_quality_failure, reconciliation_failure,
  release_provenance_failure, failed, Provenance, NewRun, Store, is_active, key_conflict,
  insert_run, finish_run, activate_kill_switch,
}
use hermes_crypto_lab.PaperRun.{Setting, ResultStatus, of_run, duplicate_schedule}
use hermes_crypto_lab.PaperRun.Act.{on_store}
use hermes_crypto_lab.Forward.{World, in_system, on_forward}
use hermes_crypto_lab.Forward.Tables.{Window, ForwardIncident, text_of}
use hermes_crypto_lab.Forward.Record.{record_forward_window, record_forward_incident}

-- The arguments.
pub record Failure : Type 0 where
  pub run_id : String
  pub incident_id : String
  pub outcome : ErrorOutcome
  pub message : String
  pub now : ℕ
  pub release_provenance : Option Provenance
  pub official_scheduled : Bool
  pub retryable_admission_failure : Bool

-- The fields of `PaperRunResult` that the function gives.
pub record FailureResult : Type 0 where
  pub run_id : String
  pub status : ResultStatus
  pub message : String
  pub outcome : String

-- `retryable_admission`
abbrev pub is_retryable : ErrorOutcome → Bool → Bool
is_retryable data_quality_failure retryable = true
is_retryable release_provenance_failure retryable = retryable
is_retryable _ retryable = false

abbrev pub is_provenance_failure : ErrorOutcome → Bool
is_provenance_failure release_provenance_failure = true
is_provenance_failure _ = false

-- `outcome in {"RECONCILIATION_FAILURE", "KILL_SWITCH_ACTIVATED"}`
abbrev pub is_halting : ErrorOutcome → Bool
is_halting reconciliation_failure = true
is_halting kill_switch_activated = true
is_halting _ = false

-- The schedule key that the run takes, and the one that it only attempted.
abbrev pub own_key : Bool → Option ℕ → Option ℕ
own_key true key = none
own_key false key = key

abbrev pub attempted_by : Bool → Option ℕ → Option ℕ
attempted_by true key = key
attempted_by false key = none

abbrev pub failure_row : Failure → Option ℕ → Option ℕ → NewRun
failure_row f own attempted = record {
  run_id = f.run_id;
  started_at = f.now;
  is_dry_run = false;
  schedule_key = own;
  attempted_schedule_key = attempted;
  official_scheduled = f.official_scheduled;
  release_provenance = f.release_provenance;
  allow_missing_release_provenance = f.official_scheduled && is_provenance_failure f.outcome;
}

-- The kill switch, when the account is still active.
unfoldable pub halt_account : Failure → Store → Store
halt_account f s =
    if is_halting f.outcome && is_active s.account_status
    then activate_kill_switch f.message (some f.run_id) s
    else s

module _ (fl : FloatOps) (setting : Setting fl) (f : Failure) where
  open fl use {F}

  abbrev retryable : Bool
  retryable = is_retryable f.outcome f.retryable_admission_failure

  abbrev pub forward_row : ℕ → ℕ → Window
  forward_row key target = record {
    schedule_key = key;
    scheduled_for = target;
    run_id = some f.run_id;
    outcome = text_of f.outcome;
    created_at = f.now;
  }

  abbrev pub incident_row : Option ℕ → ForwardIncident
  incident_row scheduled_for = record {
    incident_id = f.incident_id;
    run_id = some f.run_id;
    incident_type = text_of f.outcome;
    scheduled_for = scheduled_for;
    reason = f.message;
    created_at = f.now;
    resolved_at = none;
  }

  abbrev pub file_window : Option ℕ → Program (World F) (Option ℕ)
  file_window none = returned none
  file_window (some key) = do
    target ← lift (schedule_target_from_start setting.schedule (aware key))
    on_forward (record_forward_window (forward_row key target))
    returned (some target)

  abbrev pub file_incident : Bool → Option ℕ → Program (World F) (Unit {0})
  file_incident true scheduled_for = returned tt
  file_incident false scheduled_for =
      on_forward (record_forward_incident (incident_row scheduled_for))

  -- The run, the kill switch, and the row's end
  unfoldable pub write_run : Option ℕ → Option ℕ → Program (World F) (Unit {0})
  write_run own attempted = do
    reconciliation ← read (λ w. setting.reconcile w.system)
    in_system (on_store (insert_run setting.matches (failure_row f own attempted)))
    in_system (on_store (λ s. ok (halt_account f s)))
    in_system
        (on_store (finish_run f.run_id (failed f.outcome) f.now f.message reconciliation none))

  abbrev pub failure_result : FailureResult
  failure_result = record {
    run_id = f.run_id;
    status = of_run (failed f.outcome);
    message = f.message;
    outcome = text_of f.outcome;
  }

  unfoldable pub commit_failure : Option ℕ → Option ℕ → Program (World F) FailureResult
  commit_failure own attempted = do
    write_run own attempted
    scheduled_for ← file_window own
    file_incident retryable scheduled_for
    returned failure_result

  abbrev pub duplicate_result : FailureResult
  duplicate_result = record {
    run_id = f.run_id;
    status = duplicate_schedule;
    message = "Schedule already has a committed run";
    outcome = "NO_REBALANCE";
  }

  abbrev pub unless_held : Option ℕ → Option ℕ → Program (World F) FailureResult
  unless_held own attempted = do
    held ← read (λ w. key_conflict own w.system.store.runs)
    if held then returned duplicate_result else commit_failure own attempted

  -- `commit_operational_failure`
  unfoldable pub commit_operational_failure : Program (World F) FailureResult
  commit_operational_failure = do
    key ← lift (scheduled_key setting.schedule f.now)
    unless_held (own_key retryable key) (attempted_by retryable key)
