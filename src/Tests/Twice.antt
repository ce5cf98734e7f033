-- ===== src/Tests/Twice.antt =====
-- Two weekly calls with market data on the market of `Tests/Market`.
use hermes_crypto_lab.Base.{sym, ◌∙◌, ◌*◌, ◌≡◌, ◌≢◌, refl, ap, false, length, arith, suc, ℕ}
use hermes_crypto_lab.Base.Int.{ℤ, ◌+ℤ◌, ◌-ℤ◌}
use hermes_crypto_lab.Time.{minute_ns, weekday, normalize}
use hermes_crypto_lab.Decimal.{
  is_finite, dec_leb, dec_ltb, adjusted, is_bounded_execution_rule_decimal,
}
use hermes_crypto_lab.Decimal.Digits.{num_digits}
use hermes_crypto_lab.Decimal.Context.{fix, context_mul, digit_count, round_half_even}
use hermes_crypto_lab.PriceRange.{
  exact_decimal_product, evaluate_reference, evaluate_price_range_rule,
}
use hermes_crypto_lab.Quantity.{
  normalize_exchange_quantity, with_rules, quantize, between_floors, final_filters,
  notional_filters, except_refuse, refuse_if, bad_legacy, requires_average, limits_of,
}
use hermes_crypto_lab.Quantity.Steps.{floor_step, floor_units, step_aligned}
use hermes_crypto_lab.Broker.{execution_terms, market_rule_reference_price}
use hermes_crypto_lab.Broker.Execute.{
  execute, sells_of, buys_of, prepare_sells, prepare_sell, prepare_buys, persist_sells, scaled_buys,
  place_buys, place_buy, settle, range_check_if, range_decision, reject, note_decision,
  final_quantity, persist_fill, write_fill, classify_execution_outcome,
}
use hermes_crypto_lab.Broker.Proposals.{make_proposals, propose_each, propose, delta, value_of}
use hermes_crypto_lab.Broker.Proposals.Tables.{SameTables}
use hermes_crypto_lab.Schedule.{scheduled_key, schedule_timestamps, target_offset_minutes}
use hermes_crypto_lab.Store.{
  insert_run, check_provenance, run_exists, key_exists, mem_text, update_run, outcome_of,
  finish_run, write_execution_outcome, persist_equity,
}
use hermes_crypto_lab.Store.Steps.{Reach}
use hermes_crypto_lab.PaperRun.{
  run, attempted_key, add_run, end_run, snapshot_equity, propose_all, settle_status, conclude,
  trade,
}
use hermes_crypto_lab.PaperRun.Act.{◌>>=◌, returned, lift, read, transaction, on_store, on_books}
use hermes_crypto_lab.PaperRun.Trade.{execute_transaction, positions_value}
use hermes_crypto_lab.PaperRun.Recorded.{status_of}
use hermes_crypto_lab.Tests.Fixed.{fixed}
use hermes_crypto_lab.Store.{execution_protocol_version}
use hermes_crypto_lab.Forward.{World}
use hermes_crypto_lab.Forward.Tables.{active_ids, window_exists}
use hermes_crypto_lab.Forward.Missed.{
  record_missed_windows, scheduled_mondays, first_day, weeks, ended, file_windows,
}
use hermes_crypto_lab.RunPaper.{
  WeeklyCall, captured, fetched, weekly_call, admit, check_account, current_window_closed,
}
use hermes_crypto_lab.RunPaper.Once.{weekly_call-once}
use hermes_crypto_lab.Schedule.{schedule_window_end}
use hermes_crypto_lab.Time.{aware}
use hermes_crypto_lab.Tests.Runs.{setting, start, start-IsKeyed}
use hermes_crypto_lab.Tests.Windows.{world}
use hermes_crypto_lab.Tests.Weekly.{in_time}

abbrev with_market : WeeklyCall
with_market = record in_time {
  capture = captured (record {
    git_commit = "";
    git_dirty = false;
    hardening_manifest_sha256 = "";
    execution_protocol_version = execution_protocol_version;
    captured_at_utc = aware 0;
  });
  fetch = fetched (10 * minute_ns);
}

abbrev after_call : World ℤ
after_call = (weekly_call fixed setting with_market world).0

one_more : length after_call.system.books.orders ≡ suc (length start.books.orders)
unfolding normalize_exchange_quantity with_rules quantize between_floors final_filters
    notional_filters except_refuse refuse_if bad_legacy requires_average limits_of floor_step
    floor_units step_aligned fix context_mul digit_count round_half_even is_finite dec_leb dec_ltb
    adjusted is_bounded_execution_rule_decimal ◌+ℤ◌ ◌-ℤ◌ num_digits execute sells_of buys_of
    prepare_sells prepare_sell prepare_buys persist_sells scaled_buys place_buys place_buy settle
    range_check_if range_decision reject note_decision final_quantity persist_fill write_fill
    execution_terms market_rule_reference_price exact_decimal_product evaluate_reference
    evaluate_price_range_rule make_proposals propose_each propose delta value_of scheduled_key
    schedule_timestamps target_offset_minutes weekday normalize insert_run check_provenance
    run_exists key_exists mem_text update_run outcome_of finish_run write_execution_outcome
    persist_equity run attempted_key add_run end_run positions_value snapshot_equity propose_all
    settle_status conclude trade ◌>>=◌ returned lift read transaction on_store on_books
    execute_transaction classify_execution_outcome status_of weekly_call admit check_account
    current_window_closed schedule_window_end record_missed_windows scheduled_mondays first_day
    weeks ended file_windows active_ids window_exists
one_more = refl

traded : after_call.system.books.orders ≢ world.system.books.orders
traded same = absurd (not_more (length start.books.orders) (sym one_more ∙ ap length same))
  where
    not_more : (n : ℕ) → suc n ≡ n → ⊥
    not_more n e = omega (arith, e)

weekly_call-once_example :
    SameTables after_call.system.books
      (weekly_call fixed setting with_market after_call).0.system.books
    × Reach after_call.system.store
        (weekly_call fixed setting with_market after_call).0.system.store
weekly_call-once_example =
    weekly_call-once fixed setting with_market with_market world after_call (10 * minute_ns)
      (10 * minute_ns) refl refl refl start-IsKeyed traded Reach.here
