-- ===== src/Lib.antt =====
-- A model of the paper broker and the research controls of hermes-crypto-lab, with the theorems
-- about them.
--
-- The program takes a weekly signal, sizes orders from it, and executes them against public quotes
-- in a simulated account. `run_paper.py` builds a `PaperConfig` and a `PaperTradingSystem`
-- (src/paper_broker.py); a run starts inside the window of src/schedule.py, validates the market
-- snapshot and its public rule evidence, floors and filters each quantity by the exchange's
-- rules, checks the simulated price against the PRICE_RANGE rule, and writes orders, fills and both
-- ledgers in one transaction. The parameters of the strategy were chosen by experiments, which pass
-- through the gate of src/experiment_manager.py and are recorded in the ledger of
-- src/experiment_ledger.py.
--
-- Files:
--   Base            shared names, Boolean tests, lists, integers, exceptions as results
--   Decimal         decimal.Decimal: values, exact order, products in a context; the bound of
--                   src/execution_rule_decimal.py
--   Float           Python's floats as a parameter `FloatOps`
--   Time            pandas timestamps as nanoseconds
--   PriceRange      evaluate_price_range_rule (PriceRange/Bounds has its theorems);
--                   PriceRange/Evidence both validators, PriceRange/Freshness what the first
--                   of them accepts
--   Quantity        _normalize_exchange_quantity over SymbolRules (Quantity/Rules), with its local
--                   functions in Quantity/Steps; Quantity/Filters, Accepted and Floor have the theorems
--   Broker          quotes, execution terms and the books (the account and the tables);
--                   Broker/Execute is the transaction of _execute: `prepare_sells`, `prepare_buys`,
--                   `persist_sells`, `scaled_buys` and `settle` are its five stages in order, and
--                   `persist_fill`, `_reject_quantity` (reject) and `_record_price_range_decision`
--                   (range_decision, note_decision) its local steps, in Broker/Execute/Fill and
--                   Broker/Execute/Checks; Broker/Loops carries any
--                   property kept by the steps through the stages, over what Broker/Ready says is
--                   made ready; Broker/Ledgers
--                   uses it; Broker/Accounting counts rows by key
--   Schedule        src/schedule.py and _scheduled_key; Schedule/Window has the theorems
--   Broker/Proposals  _proposals; Broker/Proposals/Tables, Targets and Gaps have the
--                   theorems
--   Store           the tables of src/paper_store.py that tell what a run has done, each operation
--                   of PaperStore a function from store to store: insert_run, finish_run,
--                   recover_abandoned_runs, the kill switch, the outcomes, over the rows of
--                   Store/Tables; Store/Steps makes them a
--                   step relation, and Store/Recovery, Keys, Retry, Outcomes and Held use it;
--                   Store/Tolerance is resolve_persisted_quantity_tolerance, with Store/Tolerance/Authority
--   State           programs that change a state and may raise; State/Keeps relations they keep
--   PaperRun        PaperTradingSystem.run over the store and the books, each of its branches a
--                   function named for it; PaperRun/Act has the actions, which keep what was
--                   committed before an exception, PaperRun/Stops the branches that end before the
--                   proposals, PaperRun/Trade the transaction; PaperRun/Branches goes through the
--                   branches once, for PaperRun/Quiet, Window, Once and Recorded
--   Forward         the forward experiment's windows beside the account, its tables in Forward/Tables:
--                   Forward/Record has record_forward_window and record_forward_incident of
--                   src/paper_store.py, Forward/Missed record_missed_windows of
--                   src/forward_operations.py, Forward/Failure commit_operational_failure of
--                   src/paper_forward.py; Forward/Steps makes the transactions steps, and
--                   Forward/Claims, Missed/Closes and Failure/Retry and Closes have the theorems; Failure/Quiet,
--                   Filed and Leaves what a failure leaves
--   RunPaper        `main` of run_paper.py from the recording of missed windows to the run, and its helpers
--                   on the schedule, in RunPaper/Calls; RunPaper/Branches goes through its branches once, and
--                   RunPaper/Once, Outside, Unfetched and Refused have the theorems
--   Costs           ExecutionCostModel of src/costs.py
--   Backtest        BacktestConfig and _extract_weights of src/backtest.py; Backtest/Orders has
--                   create_orders and execute_orders, Backtest/Engine the loop of
--                   EventDrivenBacktester.run, one `step` for each bar; Backtest/Timing, Rows and
--                   Weights have the theorems
--   Portfolio       build_target_weights of src/portfolio.py; Portfolio/Selection
--   Metrics         _maximum_recovery_duration of src/metrics.py; Metrics/Recovery
--   Strategy        StrategyConfig of src/strategy.py: __post_init__ (check_strategy) and
--                   required_observations; Strategy/Windows
--   Config          PaperConfig.__post_init__ (check_config); Config/Accepted has what an
--                   accepted configuration gives the schedule
--   Gate            ExperimentGate, each method a function from gate to gate; Gate/Ordering
--   ExperimentLedger  ExperimentLedger, the file as a list of records; ExperimentLedger/Chain
--   ResearchLifecycle  src/research_lifecycle.py; ResearchLifecycle/Selection
--   Tests           a fixed-point instance of the floats, and runs on concrete inputs
--
-- State is passed from function to function; an exception is a value of `Result`, and a transaction
-- that raises leaves the books that it began with. Two things need fuel: the count of the digits of
-- a natural number, which has the number itself as its fuel, and no more digits than that; and the
-- loops of `_scheduled_mondays`, which step by a day to the weekday of the schedule (seven turns) and
-- by a week to the present (a turn for each week since 1601, and two more). They answer none when it
-- runs out, which Forward/Missed/Calendar excludes.
-- Integers are Python's, without a bound. Times are natural numbers of nanoseconds since
-- Monday, 1 January 1601, before every timestamp of pandas. The operations on floats, the conversion
-- of minutes to a time span, `str.strip`, `str.upper`, regular expressions on hexadecimal digits,
-- the text of a number, the ISO week of an instant, random identifiers and hashes are parameters;
-- so are, for a weekly call, the answers of the release's provenance and of the market. So are, of the
-- repository's own code, the target weights of the signal, PaperStore.reconcile and
-- _validate_snapshot, which a run may answer in any way. Where the source
-- divides, the divisor is positive (a price, a usable volatility, a sum above 0.0, a position after a
-- purchase), so
-- the exception for a division by zero is not modelled; nor is a float overflow in a conversion.
--
-- Not modelled: the rows of evidence and diagnostics that run and _execute write; the texts of order
-- and fill identities, which are made of the idempotency key; the columns of timestamps of the data;
-- _validate_snapshot; generate_signal; migrations and integrity checks of the database, the network
-- clients, the reports, the forward diagnostics and governance and the scheduler's deployment,
-- which work on pandas frames, SQL, files and processes; of main, the other commands, the recovery of
-- committed evidence before the weekly call, the reports and messages, and what follows the run.
pub mod Base
pub mod Decimal
pub mod Float
pub mod Time
pub mod PriceRange
pub mod Schedule
pub mod Quantity
pub mod Broker
pub mod Tests
pub mod Strategy
pub mod Config
pub mod Gate
pub mod ExperimentLedger
pub mod ResearchLifecycle
pub mod State
pub mod Store
pub mod PaperRun
pub mod Forward
pub mod RunPaper
pub mod Costs
pub mod Backtest
pub mod Portfolio
pub mod Metrics
