-- ===== src/Store.antt =====
-- The tables of src/paper_store.py that say what a run has done, as the operations of `PaperStore`
-- change them: runs, the account's status, incidents, outcomes and equity snapshots. The SQL
-- statements are read as operations on lists of rows; a PRIMARY KEY or UNIQUE column refuses a
-- value that is there. One account is modelled. `matches n` is `re.fullmatch` of n lower-case
-- hexadecimal digits, which is the interpreter's.
mod Tables
pub mod Recovery
pub mod Steps
pub mod Keys
pub mod Retry
pub mod Held
pub mod Tolerance
pub mod Outcomes
use text.Mathlib.Text.{◌==◌ as str_eq}
use hermes_crypto_lab.Base.{
  ℕ, String, Option, none, some, Bool, true, false, not, ◌||◌, ◌&&◌, List, [], ◌∷◌, map, length,
  ◌==◌, if◌then◌else◌, is_some, is_none, Result, ok, value_error, constraint_violation, raise_if,
  ◌>>◌, ◌>>=◌,
}
use hermes_crypto_lab.Broker.Execute.{ExecutionOutcome}
unfoldable pub use Tables.*

-- The second INSERT of the transaction.
abbrev pub with_provenance : Option Provenance → String → List String → List String
with_provenance none id ids = ids
with_provenance (some p) id ids = id ∷ ids

abbrev pub new_row : NewRun → Run
new_row n = record {
  run_id = n.run_id;
  started_at = n.started_at;
  completed_at = none;
  status = running;
  is_dry_run = n.is_dry_run;
  official_scheduled = n.official_scheduled;
  schedule_key = n.schedule_key;
  attempted_schedule_key = n.attempted_schedule_key;
  message = none;
  reconciliation = none;
}

-- `insert_run`
unfoldable pub insert_run : (ℕ → String → Bool) → NewRun → Store → Result Store
insert_run matches n s = do
  raise_if
      (n.official_scheduled
        && is_none n.release_provenance
        && not n.allow_missing_release_provenance)
      (value_error "Official scheduled paper run requires release provenance")
  check_if_given matches n.release_provenance
  raise_if (run_exists n.run_id s.runs || key_conflict n.schedule_key s.runs) constraint_violation
  raise_if (is_some n.release_provenance && mem_text n.run_id s.release_provenance)
      constraint_violation
  ok (record s {
    runs = new_row n ∷ s.runs;
    release_provenance = with_provenance n.release_provenance n.run_id s.release_provenance;
  })

-- `UPDATE paper_runs SET ... WHERE run_id=?`
unfoldable pub update_run : String → (Run → Run) → List Run → List Run
update_run id f [] = []
update_run id f (r ∷ rs) =
    let rest = update_run id f rs in (if str_eq r.run_id id then f r else r) ∷ rest

unfoldable pub outcome_of : String → List (String × ExecutionOutcome) → Option ExecutionOutcome
outcome_of id [] = none
outcome_of id ((x, o) ∷ rest) =
    let later = outcome_of id rest in if str_eq x id then some o else later

-- `existing[0] != execution_outcome`
abbrev pub outcome_number : ExecutionOutcome → ℕ
outcome_number ExecutionOutcome.no_rebalance_required = 0
outcome_number ExecutionOutcome.execution_rejected = 1
outcome_number ExecutionOutcome.partial_execution = 2
outcome_number ExecutionOutcome.full_execution = 3

-- `_write_execution_outcome`: inserted unless there is one, and then read back.
abbrev pub write_or_compare :
    Option ExecutionOutcome → String → ExecutionOutcome → Store → Result Store
write_or_compare none id o s = ok (record s { outcomes = (id, o) ∷ s.outcomes })
write_or_compare (some existing) id o s = do
  raise_if (not (outcome_number existing == outcome_number o))
      (value_error "committed paper execution outcome is immutable")
  ok s

unfoldable pub write_execution_outcome : String → ExecutionOutcome → Store → Result Store
write_execution_outcome id o s = write_or_compare (outcome_of id s.outcomes) id o s

abbrev pub write_if_given : String → Option ExecutionOutcome → Store → Result Store
write_if_given id none s = ok s
write_if_given id (some o) s = write_execution_outcome id o s

abbrev pub finished : RunStatus → ℕ → String → ReconciliationResult → Run → Run
finished status now message reconciliation r = record r {
  completed_at = some now;
  status = status;
  message = some message;
  reconciliation = some reconciliation;
}

-- `finish_run`; an exception rolls the update back.
unfoldable pub finish_run :
    String
    → RunStatus
    → ℕ
    → String
    → ReconciliationResult
    → Option ExecutionOutcome
    → Store
    → Result Store
finish_run id status now message reconciliation outcome s =
    write_if_given id outcome
      (record s { runs = update_run id (finished status now message reconciliation) s.runs })

-- `activate_kill_switch` and `reset_kill_switch`
unfoldable pub activate_kill_switch : String → Option String → Store → Store
activate_kill_switch reason id s = record s {
  account_status = halted;
  incidents = record { incident_run = id; reason = reason; cleared_at = none } ∷ s.incidents;
}

abbrev pub clear_incident : ℕ → Incident → Incident
clear_incident now i = if is_none i.cleared_at then record i { cleared_at = some now } else i

unfoldable pub reset_kill_switch : ReconciliationResult → ℕ → Store → Result Store
reset_kill_switch reconciliation now s = do
  raise_if (not reconciliation.valid) (value_error "Cannot reset corrupted state")
  ok (record s { account_status = active; incidents = map (clear_incident now) s.incidents })

-- `INSERT INTO equity_snapshots`, whose `run_id` is unique: the part of `_persist_equity` that
-- other operations read.
unfoldable pub persist_equity : String → Store → Result Store
persist_equity id s = do
  raise_if (mem_text id s.equity_snapshots) constraint_violation
  ok (record s { equity_snapshots = id ∷ s.equity_snapshots })

-- What `recover_abandoned_runs` writes into the row of a running run.
abbrev pub recovered_message : Bool → String
recovered_message true = "Recovered committed paper state after process restart"
recovered_message false = "Recovered uncommitted run; schedule released for retry"

unfoldable pub recovered : Bool → ℕ → Run → Run
recovered true now r = record r {
  status = recovered_committed;
  completed_at = some now;
  message = some (recovered_message true);
}
recovered false now r = record r {
  status = recovered_aborted;
  completed_at = some now;
  schedule_key = none;
  message = some (recovered_message false);
}

-- `SELECT run_id FROM paper_runs WHERE status='RUNNING'`
unfoldable pub running_ids : List Run → List String
running_ids [] = []
running_ids (r ∷ rs) =
    let rest = running_ids rs in if is_running r.status then r.run_id ∷ rest else rest

-- The loop over those runs.
unfoldable pub recover_each : ℕ → List String → List String → List Run → List Run
recover_each now snapshots [] runs = runs
recover_each now snapshots (id ∷ ids) runs =
    recover_each now snapshots ids (update_run id (recovered (mem_text id snapshots) now) runs)

-- `recover_abandoned_runs`, at a time `now`
unfoldable pub recover_abandoned_runs : ℕ → Store → Store × ℕ
recover_abandoned_runs now s =
    let ids = running_ids s.runs in
    (record s { runs = recover_each now s.equity_snapshots ids s.runs }, length ids)
