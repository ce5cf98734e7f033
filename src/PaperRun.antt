-- ===== src/PaperRun.antt =====
-- `PaperTradingSystem.run` of src/paper_broker.py: one run of the paper account, from the admission
-- to the row that says how it ended. The state is the store and the books; an exception leaves
-- the state that the committed transactions have made. The reconciliation, the checks of the
-- snapshot and the text of a number are parameters. The rows of market-rule and execution-rule
-- evidence, of diagnostics and of timestamps of the data are not modelled.
pub mod Act
pub mod Trade
mod Stops
pub mod Moves
pub mod Branches
pub mod Quiet
pub mod Window
pub mod Once
pub mod Recorded
use hermes_crypto_lab.Base.{
  ℕ, ◌-◌, String, Option, none, some, false, not, ◌&&◌, List, [], ◌∷◌, length, if◌then◌else◌,
  is_none,
}
use hermes_crypto_lab.Float.{FloatOps}
use hermes_crypto_lab.Schedule.{scheduled_key}
use hermes_crypto_lab.Broker.{Proposal, Books}
use hermes_crypto_lab.Broker.Proposals.{make_proposals}
use hermes_crypto_lab.Store.{
  RunStatus, executed, dry_run, kill_switch, ReconciliationResult, is_active, schedule_exists,
}
use Act.{Action, ◌>>=◌, ◌>>◌, returned, lift, read, on_books, transaction}
pub use Trade.{
  Request, ResultStatus, of_run, duplicate_schedule, PaperRunResult, Setting, is_official,
  equity_of,
}
unfoldable pub use Stops.*
use Trade.{counted_outcome, execute_transaction}

module _ (fl : FloatOps) (setting : Setting fl) where
  open fl use {F, plus, times}

  unfoldable pub propose_all : Action F (List (Proposal F))
  propose_all = on_books (
      make_proposals fl setting.config setting.market setting.target_weights setting.idempotency_key
        setting.assets)

  abbrev pub dry_message : List (Proposal F) → String
  dry_message proposals =
      setting.concat (
        "Generated "
        ∷ setting.show (length proposals)
        ∷ " proposals; no state-changing trades"
        ∷ [])

  unfoldable pub dry_run_only : Request → Action F (PaperRunResult F)
  dry_run_only req = do
    add_run fl setting req none none none false
    proposals ← propose_all
    equity ← snapshot_equity fl setting req
    reconciliation ← read setting.reconcile
    end_run fl setting req dry_run (dry_message proposals) reconciliation none (record {
      run_id = req.run_id;
      status = of_run dry_run;
      message = dry_message proposals;
      proposals = proposals;
      equity = some equity;
      outcome = none;
    })

  abbrev pub executed_message : ℕ → ℕ → String
  executed_message orders refusals = setting.concat (
      "Executed "
      ∷ setting.show orders
      ∷ " idempotent paper orders; rejected "
      ∷ setting.show refusals
      ∷ " across proposal and final execution validation"
      ∷ [])

  -- `if not reconciliation.valid:` after the execution
  unfoldable pub settle_status :
      Request → ReconciliationResult → String → Action F (RunStatus × String)
  settle_status req reconciliation message =
      if reconciliation.valid then returned (executed, message) else do
        halt fl setting req reconciliation.message
        returned (kill_switch, reconciliation.message)

  -- What follows the transaction.
  unfoldable pub conclude : Request → List (Proposal F) → Books F → F → Action F (PaperRunResult F)
  conclude req proposals before equity = do
    after ← read (λ s. s.books)
    let outcome = counted_outcome fl setting before after
    reconciliation ← read setting.reconcile
    (status, message) ←
        settle_status req reconciliation
          (executed_message (length after.orders - length before.orders) (length after.rejections))
    end_run fl setting req status message reconciliation (some outcome) (record {
      run_id = req.run_id;
      status = of_run status;
      message = message;
      proposals = proposals;
      equity = some equity;
      outcome = some outcome;
    })

  unfoldable pub trade : Request → ℕ → Action F (PaperRunResult F)
  trade req key = do
    add_run fl setting req (some key) none req.release_provenance false
    proposals ← propose_all
    before ← read (λ s. s.books)
    equity ← transaction (execute_transaction fl setting req proposals)
    conclude req proposals before equity

  abbrev pub duplicate_message : ℕ → String
  duplicate_message key =
      setting.concat ("Schedule " ∷ setting.show key ∷ " was already executed" ∷ [])

  abbrev pub in_window : Request → ℕ → Action F (PaperRunResult F)
  in_window req key = do
    exists ← read (λ s. schedule_exists key s.store)
    if req.is_dry_run
        then dry_run_only req
        else if exists
        then returned (plain_result fl setting req duplicate_schedule (duplicate_message key))
        else trade req key

  abbrev pub scheduled : Request → Option ℕ → Action F (PaperRunResult F)
  scheduled req none = outside_window fl setting req
  scheduled req (some key) = in_window req key

  abbrev pub validated :
      Request → Option ℕ → ReconciliationResult → Option String → Action F (PaperRunResult F)
  validated req attempted reconciliation (some error) =
      data_halted fl setting req attempted reconciliation error
  validated req attempted reconciliation none = do
    key ← lift (scheduled_key setting.schedule req.now)
    scheduled req key

  abbrev pub reconciled : Request → Option ℕ → ReconciliationResult → Action F (PaperRunResult F)
  reconciled req attempted reconciliation =
      if reconciliation.valid
      then validated req attempted reconciliation (setting.validate_snapshot req.now)
      else corrupted fl setting req attempted reconciliation

  abbrev pub active_account : Request → Option ℕ → Action F (PaperRunResult F)
  active_account req attempted = do
    reconciliation ← read setting.reconcile
    reconciled req attempted reconciliation

  abbrev pub admitted : Request → Option ℕ → Action F (PaperRunResult F)
  admitted req attempted = do
    status ← read (λ s. s.store.account_status)
    if is_active status
        then active_account req attempted
        else account_halted fl setting req attempted

  -- `PaperTradingSystem.run`
  unfoldable pub run : Request → Action F (PaperRunResult F)
  run req = do
    attempted ← attempted_key fl setting req
    if req.require_release_provenance && is_none req.release_provenance
        then provenance_failure fl setting req attempted
        else admitted req attempted
