-- ===== src/Tests/Runs.antt =====
-- Runs of the paper account on the market of `Tests/Market`.
use hermes_crypto_lab.Base.{
  zero, sym, ◌∙◌, ◌+◌, ◌*◌, ◌≡◌, ◌≢◌, ◌⊎◌, ◌≤◌, refl, ap, String, none, some, true, false, List, [],
  ◌∷◌, Result, ok, err, length, arith, suc, ℕ, All,
}
use hermes_crypto_lab.Base.Int.{ℤ, pos, ◌+ℤ◌, ◌-ℤ◌}
use hermes_crypto_lab.Time.{minute_ns, weekday, normalize}
use hermes_crypto_lab.Decimal.{
  is_finite, dec_leb, dec_ltb, adjusted, is_bounded_execution_rule_decimal,
}
use hermes_crypto_lab.Decimal.Digits.{num_digits}
use hermes_crypto_lab.Decimal.Context.{fix, context_mul, digit_count, round_half_even}
use hermes_crypto_lab.PriceRange.{
  exact_decimal_product, evaluate_reference, evaluate_price_range_rule,
}
use hermes_crypto_lab.Quantity.{
  normalize_exchange_quantity, with_rules, quantize, between_floors, final_filters,
  notional_filters, except_refuse, refuse_if, bad_legacy, requires_average, limits_of,
}
use hermes_crypto_lab.Quantity.Steps.{floor_step, floor_units, step_aligned}
use hermes_crypto_lab.Broker.{Books, Proposal, execution_terms, market_rule_reference_price}
use hermes_crypto_lab.Broker.Execute.{
  execute, sells_of, buys_of, prepare_sells, prepare_sell, prepare_buys, persist_sells, scaled_buys,
  place_buys, place_buy, settle, range_check_if, range_decision, reject, note_decision,
  final_quantity, persist_fill, write_fill, classify_execution_outcome,
}
use hermes_crypto_lab.Broker.Proposals.{make_proposals, propose_each, propose, delta, value_of}
use hermes_crypto_lab.Broker.Proposals.Tables.{SameTables}
use hermes_crypto_lab.Broker.Proposals.Gaps.{ClosesGap, worth, make_proposals-ClosesGap}
use hermes_crypto_lab.Schedule.{scheduled_key, schedule_timestamps, target_offset_minutes}
use hermes_crypto_lab.Store.{
  executed, active, insert_run, check_provenance, run_exists, key_exists, mem_text, update_run,
  outcome_of, finish_run, write_execution_outcome, persist_equity, recover_abandoned_runs,
}
use hermes_crypto_lab.Store.Steps.{StoreStep, Reach}
use hermes_crypto_lab.Store.Keys.{IsKeyed}
use hermes_crypto_lab.PaperRun.{
  Request, Setting, PaperRunResult, of_run, duplicate_schedule, run, attempted_key, add_run,
  end_run, snapshot_equity, propose_all, settle_status, conclude, trade,
}
use hermes_crypto_lab.PaperRun.Act.{
  System, ◌>>=◌, returned, lift, read, transaction, on_store, on_books,
}
use hermes_crypto_lab.PaperRun.Trade.{execute_transaction, positions_value}
use hermes_crypto_lab.PaperRun.Branches.{IsTradable}
use hermes_crypto_lab.PaperRun.Window.{run-SameTables}
use hermes_crypto_lab.PaperRun.Once.{run_once}
use hermes_crypto_lab.PaperRun.Recorded.{status_of, IsEnded, run-status_of}
use hermes_crypto_lab.Tests.Fixed.{fixed}
use hermes_crypto_lab.Tests.Market.{market, config, books}

-- Half of the equity in BTC, on Mondays from 00:05, with the target at 00:10.
abbrev pub setting : Setting fixed
setting = record {
  config = config;
  schedule = record {
    schedule_weekday = 0;
    schedule_hour = 0;
    schedule_minute = 5;
    execution_target_minute = 10;
    schedule_window_minutes = 20;
  };
  assets = "BTC" ∷ [];
  market = market;
  target_weights = λ s. some (pos 5_000);
  idempotency_key = λ s. "k1";
  reconcile = λ s. record { valid = true; message = "" };
  validate_snapshot = λ now. none;
  execution_evidence_error = λ now. none;
  matches = λ n s. true;
  show = λ n. "";
  concat = λ texts. "";
}

abbrev request : String → Request
request id = record {
  run_id = id;
  now = 10 * minute_ns;
  is_dry_run = false;
  release_provenance = none;
  require_release_provenance = false;
  official_scheduled = false;
}

abbrev pub start : System ℤ
start = record {
  store = record {
    account_status = active;
    runs = [];
    incidents = [];
    outcomes = [];
    equity_snapshots = [];
    release_provenance = [];
  };
  books = books;
}

pub start-IsKeyed : IsKeyed start.store
start-IsKeyed = record { distinct_runs = tt; distinct_keys = tt }

abbrev ran : System ℤ × Result (PaperRunResult ℤ)
ran = run fixed setting (request "r1") start

one_order : length ran.0.books.orders ≡ 1
unfolding normalize_exchange_quantity with_rules quantize between_floors final_filters
    notional_filters except_refuse refuse_if bad_legacy requires_average limits_of floor_step
    floor_units step_aligned fix context_mul digit_count round_half_even is_finite dec_leb dec_ltb
    adjusted is_bounded_execution_rule_decimal ◌+ℤ◌ ◌-ℤ◌ num_digits execute sells_of buys_of
    prepare_sells prepare_sell prepare_buys persist_sells scaled_buys place_buys place_buy settle
    range_check_if range_decision reject note_decision final_quantity persist_fill write_fill
    execution_terms market_rule_reference_price exact_decimal_product evaluate_reference
    evaluate_price_range_rule make_proposals propose_each propose delta value_of scheduled_key
    schedule_timestamps target_offset_minutes weekday normalize insert_run check_provenance
    run_exists key_exists mem_text update_run outcome_of finish_run write_execution_outcome
    persist_equity run attempted_key add_run end_run positions_value snapshot_equity propose_all
    settle_status conclude trade ◌>>=◌ returned lift read transaction on_store on_books
    execute_transaction classify_execution_outcome status_of
one_order = refl

run-SameTables_example :
    SameTables start.books ran.0.books
    ⊎ ((key : ℕ) × IsTradable fixed setting (request "r1") start key
        × (ran ≡ trade fixed setting (request "r1") key start))
run-SameTables_example = run-SameTables fixed setting (request "r1") start

-- The state after the run, a crash and the recovery.
abbrev restarted : System ℤ
restarted = record { store = (recover_abandoned_runs 99 ran.0.store).0; books = ran.0.books }

traded : ran.0.books.orders ≢ start.books.orders
traded same =
    let none_new : length ran.0.books.orders ≡ 0 = ap (λ l. length l) same in
    let clash : suc zero ≡ zero = sym one_order ∙ none_new in absurd (omega (arith, clash))

run_once_example : SameTables restarted.books (run fixed setting (request "r2") restarted).0.books
run_once_example =
    run_once fixed setting (request "r1") (request "r2") start restarted start-IsKeyed traded
      (Reach.next Reach.here (StoreStep.recover 99 refl)) refl

abbrev answer_or : PaperRunResult ℤ → Result (PaperRunResult ℤ) → PaperRunResult ℤ
answer_or r (ok r') = r'
answer_or r (err e) = r

abbrev no_answer : PaperRunResult ℤ
no_answer = record {
  run_id = "";
  status = duplicate_schedule;
  message = "";
  proposals = [];
  equity = none;
  outcome = none;
}

returns : ran ≡ (ran.0, ok (answer_or no_answer ran.1))
unfolding normalize_exchange_quantity with_rules quantize between_floors final_filters
    notional_filters except_refuse refuse_if bad_legacy requires_average limits_of floor_step
    floor_units step_aligned fix context_mul digit_count round_half_even is_finite dec_leb dec_ltb
    adjusted is_bounded_execution_rule_decimal ◌+ℤ◌ ◌-ℤ◌ num_digits execute sells_of buys_of
    prepare_sells prepare_sell prepare_buys persist_sells scaled_buys place_buys place_buy settle
    range_check_if range_decision reject note_decision final_quantity persist_fill write_fill
    execution_terms market_rule_reference_price exact_decimal_product evaluate_reference
    evaluate_price_range_rule make_proposals propose_each propose delta value_of scheduled_key
    schedule_timestamps target_offset_minutes weekday normalize insert_run check_provenance
    run_exists key_exists mem_text update_run outcome_of finish_run write_execution_outcome
    persist_equity run attempted_key add_run end_run positions_value snapshot_equity propose_all
    settle_status conclude trade ◌>>=◌ returned lift read transaction on_store on_books
    execute_transaction classify_execution_outcome status_of
returns = refl

executes : (answer_or no_answer ran.1).status ≡ of_run executed
unfolding normalize_exchange_quantity with_rules quantize between_floors final_filters
    notional_filters except_refuse refuse_if bad_legacy requires_average limits_of floor_step
    floor_units step_aligned fix context_mul digit_count round_half_even is_finite dec_leb dec_ltb
    adjusted is_bounded_execution_rule_decimal ◌+ℤ◌ ◌-ℤ◌ num_digits execute sells_of buys_of
    prepare_sells prepare_sell prepare_buys persist_sells scaled_buys place_buys place_buy settle
    range_check_if range_decision reject note_decision final_quantity persist_fill write_fill
    execution_terms market_rule_reference_price exact_decimal_product evaluate_reference
    evaluate_price_range_rule make_proposals propose_each propose delta value_of scheduled_key
    schedule_timestamps target_offset_minutes weekday normalize insert_run check_provenance
    run_exists key_exists mem_text update_run outcome_of finish_run write_execution_outcome
    persist_equity run attempted_key add_run end_run positions_value snapshot_equity propose_all
    settle_status conclude trade ◌>>=◌ returned lift read transaction on_store on_books
    execute_transaction classify_execution_outcome status_of
executes = refl

run-status_of_example : (status_of "r1" ran.0.store.runs ≡ some executed) × IsEnded executed
run-status_of_example =
    run-status_of fixed setting (request "r1") start ran.0 (answer_or no_answer ran.1) executed
      returns executes

abbrev proposed_or : Books ℤ → Result (List (Proposal ℤ) × Books ℤ) → List (Proposal ℤ) × Books ℤ
proposed_or b (ok r) = r
proposed_or b (err e) = ([], b)

abbrev wanted : List (Proposal ℤ) × Books ℤ
wanted = proposed_or books (
    make_proposals fixed config market setting.target_weights setting.idempotency_key ("BTC" ∷ [])
      books)

proposes :
    make_proposals fixed config market setting.target_weights setting.idempotency_key
      ("BTC" ∷ [])
      books
    ≡ ok (wanted.0, wanted.1)
unfolding normalize_exchange_quantity with_rules quantize between_floors final_filters
    notional_filters except_refuse refuse_if bad_legacy requires_average limits_of floor_step
    floor_units step_aligned fix context_mul digit_count round_half_even is_finite dec_leb dec_ltb
    adjusted is_bounded_execution_rule_decimal ◌+ℤ◌ ◌-ℤ◌ num_digits execute sells_of buys_of
    prepare_sells prepare_sell prepare_buys persist_sells scaled_buys place_buys place_buy settle
    range_check_if range_decision reject note_decision final_quantity persist_fill write_fill
    execution_terms market_rule_reference_price exact_decimal_product evaluate_reference
    evaluate_price_range_rule make_proposals propose_each propose delta value_of scheduled_key
    schedule_timestamps target_offset_minutes weekday normalize insert_run check_provenance
    run_exists key_exists mem_text update_run outcome_of finish_run write_execution_outcome
    persist_equity run attempted_key add_run end_run positions_value snapshot_equity propose_all
    settle_status conclude trade ◌>>=◌ returned lift read transaction on_store on_books
    execute_transaction classify_execution_outcome status_of
proposes = refl

make_proposals-ClosesGap_example :
    All
      (ClosesGap fixed config market setting.target_weights setting.idempotency_key
        (worth fixed config market setting.target_weights setting.idempotency_key
          ("BTC" ∷ [])
          books)
        books)
      wanted.0
    × (length wanted.0 + length wanted.1.rejections ≤ 1)
make_proposals-ClosesGap_example =
    make_proposals-ClosesGap fixed config market setting.target_weights setting.idempotency_key
      ("BTC" ∷ []) books wanted.1 wanted.0 proposes
