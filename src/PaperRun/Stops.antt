-- ===== src/PaperRun/Stops.antt =====
-- The parts of `PaperTradingSystem.run` of src/paper_broker.py that its branches share, and the
-- branches that stop before any proposal is made.
use hermes_crypto_lab.Base.{ℕ, String, Option, none, some, Bool, true, false, [], if◌then◌else◌, ok}
use hermes_crypto_lab.Float.{FloatOps}
use hermes_crypto_lab.Schedule.{scheduled_key}
use hermes_crypto_lab.Broker.Execute.{ExecutionOutcome}
use hermes_crypto_lab.Store.{
  RunStatus, no_rebalance, data_halt, kill_switch, failed, release_provenance_failure,
  ReconciliationResult, Provenance, insert_run, finish_run, activate_kill_switch, persist_equity,
}
use hermes_crypto_lab.PaperRun.Act.{Action, ◌>>=◌, ◌>>◌, returned, lift, read, on_store}
use hermes_crypto_lab.PaperRun.Trade.{
  Request, ResultStatus, of_run, PaperRunResult, Setting, is_official, equity_of,
}

module _ (fl : FloatOps) (setting : Setting fl) where
  open fl use {F}

  unfoldable pub attempted_key : Request → Action F (Option ℕ)
  attempted_key req =
      if is_official req then lift (scheduled_key setting.schedule req.now) else returned none

  -- `self.store.insert_run(...)`
  unfoldable pub add_run :
      Request → Option ℕ → Option ℕ → Option Provenance → Bool → Action F (Unit {0})
  add_run req key attempted provenance allowed = on_store (
      insert_run setting.matches (record {
        run_id = req.run_id;
        started_at = req.now;
        is_dry_run = req.is_dry_run;
        schedule_key = key;
        attempted_schedule_key = attempted;
        official_scheduled = is_official req;
        release_provenance = provenance;
        allow_missing_release_provenance = allowed;
      }))

  -- `self.store.finish_run(...)`, and the result with the same status and message
  unfoldable pub end_run :
      Request
      → RunStatus
      → String
      → ReconciliationResult
      → Option ExecutionOutcome
      → PaperRunResult F
      → Action F (PaperRunResult F)
  end_run req status message reconciliation outcome result = do
    on_store (finish_run req.run_id status req.now message reconciliation outcome)
    returned result

  abbrev pub plain_result : Request → ResultStatus → String → PaperRunResult F
  plain_result req status message = record {
    run_id = req.run_id;
    status = status;
    message = message;
    proposals = [];
    equity = none;
    outcome = none;
  }

  unfoldable pub halt : Request → String → Action F (Unit {0})
  halt req reason = on_store (λ s. ok (activate_kill_switch reason (some req.run_id) s))

  abbrev pub provenance_message : String
  provenance_message = "Official scheduled paper execution requires verified release provenance"

  unfoldable pub provenance_failure : Request → Option ℕ → Action F (PaperRunResult F)
  provenance_failure req attempted = do
    reconciliation ← read setting.reconcile
    add_run req none attempted none true
    end_run req (failed release_provenance_failure) provenance_message reconciliation none
        (plain_result req (of_run (failed release_provenance_failure)) provenance_message)

  unfoldable pub account_halted : Request → Option ℕ → Action F (PaperRunResult F)
  account_halted req attempted = do
    reconciliation ← read setting.reconcile
    add_run req attempted none req.release_provenance false
    end_run req kill_switch "Paper account is halted" reconciliation none
        (plain_result req (of_run kill_switch) "Paper account is halted")

  unfoldable pub corrupted : Request → Option ℕ → ReconciliationResult → Action F (PaperRunResult F)
  corrupted req attempted reconciliation = do
    add_run req attempted none req.release_provenance false
    halt req reconciliation.message
    end_run req kill_switch reconciliation.message reconciliation none
        (plain_result req (of_run kill_switch) reconciliation.message)

  unfoldable pub data_halted :
      Request → Option ℕ → ReconciliationResult → String → Action F (PaperRunResult F)
  data_halted req attempted reconciliation error = do
    add_run req none attempted req.release_provenance false
    end_run req data_halt error reconciliation none (plain_result req (of_run data_halt) error)

  unfoldable pub snapshot_equity : Request → Action F F
  snapshot_equity req = do
    on_store (persist_equity req.run_id)
    read (λ s. equity_of fl setting s.books)

  abbrev pub outside_message : String
  outside_message = "Market health checked; outside scheduled rebalance window"

  unfoldable pub outside_window : Request → Action F (PaperRunResult F)
  outside_window req = do
    add_run req none none req.release_provenance false
    equity ← snapshot_equity req
    reconciliation ← read setting.reconcile
    end_run req no_rebalance outside_message reconciliation
        (some ExecutionOutcome.no_rebalance_required)
        (record {
          run_id = req.run_id;
          status = of_run no_rebalance;
          message = outside_message;
          proposals = [];
          equity = some equity;
          outcome = some ExecutionOutcome.no_rebalance_required;
        })
