-- ===== src/PaperRun/Trade.antt =====
-- What a run of src/paper_broker.py uses and returns, its valuation of the books, and the one
-- transaction of `_execute` in which the books and the store change.
pub mod Passed
use hermes_crypto_lab.Base.{
  ℕ, ◌+◌, ◌-◌, String, Option, none, some, Bool, ◌||◌, List, [], ◌∷◌, length, Result, ok, err,
  value_error, ◌>>=◌, ◌>>◌,
}
use hermes_crypto_lab.Float.{FloatOps, f_zero}
use hermes_crypto_lab.Schedule.{ScheduleConfig}
use hermes_crypto_lab.Broker.{BrokerConfig, Market, Proposal, Position, Books, mid}
use hermes_crypto_lab.Broker.Execute.{execute, ExecutionOutcome, classify_execution_outcome}
use hermes_crypto_lab.Store.{
  RunStatus, ReconciliationResult, Provenance, persist_equity, write_execution_outcome,
}
use hermes_crypto_lab.PaperRun.Act.{System}

-- The arguments of `run`, its instant in UTC, and its identifier.
pub record Request : Type 0 where
  pub run_id : String
  pub now : ℕ
  pub is_dry_run : Bool
  pub release_provenance : Option Provenance
  pub require_release_provenance : Bool
  pub official_scheduled : Bool

pub data ResultStatus : Type 0 where
  of_run : RunStatus → ResultStatus
  duplicate_schedule : ResultStatus

pub record PaperRunResult (F : Type 0) : Type 0 where
  pub run_id : String
  pub status : ResultStatus
  pub message : String
  pub proposals : List (Proposal F)
  pub equity : Option F
  pub outcome : Option ExecutionOutcome

-- What the run uses of its environment.
pub record Setting (fl : FloatOps) : Type 0 where
  pub config : BrokerConfig fl.F
  pub schedule : ScheduleConfig
  pub assets : List String
  pub market : Market fl.F
  pub target_weights : String → Option fl.F
  pub idempotency_key : String → String
  -- `PaperStore.reconcile`, `_validate_snapshot`, and the checks at the start of `_execute`
  pub reconcile : System fl.F → ReconciliationResult
  pub validate_snapshot : ℕ → Option String
  pub execution_evidence_error : ℕ → Option String
  -- the interpreter's: `re.fullmatch` on hexadecimal digits, and the text of a number
  pub matches : ℕ → String → Bool
  pub show : ℕ → String
  pub concat : List String → String

abbrev pub is_official : Request → Bool
is_official req = req.official_scheduled || req.require_release_provenance

module _ (fl : FloatOps) (setting : Setting fl) where
  open fl use {F, plus, times}

  -- `_persist_equity`: cash and the positions at their mid prices
  unfoldable pub positions_value : List (String × Position F) → F → F
  positions_value [] total = total
  positions_value ((symbol, p) ∷ rest) total =
      positions_value rest (plus total (times p.quantity (mid fl (setting.market.quotes symbol))))

  abbrev pub equity_of : Books F → F
  equity_of b = plus b.cash (positions_value b.positions (f_zero fl))

  -- The orders of the run are those that it adds to the table.
  abbrev pub counted_outcome : Books F → Books F → ExecutionOutcome
  counted_outcome before after =
      let orders = length after.orders - length before.orders in
      let refusals = length after.rejections in
      classify_execution_outcome (orders + refusals) orders refusals

  abbrev pub raise_error : Option String → Result (Unit {0})
  raise_error none = ok tt
  raise_error (some message) = err (value_error message)

  -- `_execute`: its checks, and the transaction, of which nothing stays when it raises.
  unfoldable pub execute_transaction :
      Request → List (Proposal F) → System F → Result (F × System F)
  execute_transaction req proposals s = do
    raise_error (setting.execution_evidence_error req.now)
    books ← execute fl setting.config setting.market proposals s.books
    store ← persist_equity req.run_id s.store
    store' ← write_execution_outcome req.run_id (counted_outcome s.books books) store
    ok (equity_of books, record { store = store'; books = books })
