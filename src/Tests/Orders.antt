-- ===== src/Tests/Orders.antt =====
-- The order path on the market of `Tests/Market`.
use hermes_crypto_lab.Base.{
  ◌+◌, ◌≡◌, refl, ◌⊎◌, some, true, false, List, [], Result, ok, err, length,
}
use hermes_crypto_lab.Base.Int.{ℤ, pos, ◌+ℤ◌, ◌-ℤ◌}
use hermes_crypto_lab.Decimal.{
  Decimal, finite, is_finite, dec_leb, dec_ltb, dec_zero, adjusted,
  is_bounded_execution_rule_decimal,
}
use hermes_crypto_lab.Decimal.Digits.{num_digits}
use hermes_crypto_lab.Decimal.Context.{fix, context_mul, digit_count, round_half_even}
use hermes_crypto_lab.PriceRange.{
  exact_decimal_product, evaluate_reference, evaluate_price_range_rule,
}
use hermes_crypto_lab.Quantity.{
  executable, normalize_exchange_quantity, with_rules, quantize, between_floors, final_filters,
  notional_filters, except_refuse, refuse_if, bad_legacy, requires_average, limits_of,
  decimal_price, exact_reference,
}
use hermes_crypto_lab.Quantity.Steps.{floor_step, floor_units, step_aligned}
use hermes_crypto_lab.Quantity.Filters.{MeetsFilters}
use hermes_crypto_lab.Quantity.Accepted.{normalized-MeetsFilters}
use hermes_crypto_lab.Float.{f_zero, f_max}
use hermes_crypto_lab.Broker.{Books, Proposal, execution_terms, market_rule_reference_price}
use hermes_crypto_lab.Broker.Execute.{
  Ready, execute, sells_of, buys_of, prepare_sells, prepare_sell, prepare_buys, persist_sells,
  scaled_buys, place_buys, place_buy, settle, range_check_if, range_decision, reject, note_decision,
  final_quantity, persist_fill, write_fill,
}
use hermes_crypto_lab.Broker.Ledgers.{last_cash, IsPosted, execute_reconciles}
use hermes_crypto_lab.Broker.Accounting.{settled_rows, proposal_rows, execute_accounts}
use hermes_crypto_lab.Tests.Fixed.{fixed, finite_fixed}
use hermes_crypto_lab.Tests.Market.{btc_rules, market, config, proposals, books}

abbrev hundred : Decimal
hundred = finite false 100 (pos 0)

btc_quantity :
    normalize_exchange_quantity fixed true
      (pos 1)
      (some btc_rules)
      (pos 1_234)
      (decimal_price hundred)
    ≡ ok (executable (pos 1_200))
unfolding normalize_exchange_quantity with_rules quantize between_floors final_filters
    notional_filters except_refuse refuse_if bad_legacy requires_average limits_of floor_step
    floor_units step_aligned fix context_mul digit_count round_half_even is_finite dec_leb dec_ltb
    adjusted is_bounded_execution_rule_decimal ◌+ℤ◌ ◌-ℤ◌ num_digits
btc_quantity = refl

normalized-MeetsFilters_example :
    (btc_rules.active ≡ true)
    × (btc_rules.market_order_allowed ≡ true)
    × ((price d : Decimal) × (exact_reference fixed (decimal_price hundred) ≡ some price)
        × (dec_leb price dec_zero ≡ false)
        × (pos 1_200 ≡ fixed.of_decimal d)
        × MeetsFilters fixed (pos 1) btc_rules price d)
normalized-MeetsFilters_example =
    normalized-MeetsFilters fixed (λ x _. finite_fixed x) true (pos 1) btc_rules (pos 1_234)
      (decimal_price hundred) (pos 1_200) btc_quantity

abbrev books_or : Books ℤ → Result (Books ℤ) → Books ℤ
books_or b (ok b') = b'
books_or b (err e) = b

abbrev traded : Books ℤ
traded = books_or books (execute fixed config market proposals books)

committed : execute fixed config market proposals books ≡ ok traded
unfolding normalize_exchange_quantity with_rules quantize between_floors final_filters
    notional_filters except_refuse refuse_if bad_legacy requires_average limits_of floor_step
    floor_units step_aligned fix context_mul digit_count round_half_even is_finite dec_leb dec_ltb
    adjusted is_bounded_execution_rule_decimal ◌+ℤ◌ ◌-ℤ◌ num_digits execute sells_of buys_of
    prepare_sells prepare_sell prepare_buys persist_sells scaled_buys place_buys place_buy settle
    range_check_if range_decision reject note_decision final_quantity persist_fill write_fill
    execution_terms market_rule_reference_price exact_decimal_product evaluate_reference
    evaluate_price_range_rule
committed = refl

-- One purchase of 0.12 at 101.1005 and a fee; the sale is rejected.
traded_rows :
    (traded.cash ≡ pos 9_878_619) × (length traded.orders ≡ 1) × (length traded.rejections ≡ 1)
unfolding normalize_exchange_quantity with_rules quantize between_floors final_filters
    notional_filters except_refuse refuse_if bad_legacy requires_average limits_of floor_step
    floor_units step_aligned fix context_mul digit_count round_half_even is_finite dec_leb dec_ltb
    adjusted is_bounded_execution_rule_decimal ◌+ℤ◌ ◌-ℤ◌ num_digits execute sells_of buys_of
    prepare_sells prepare_sell prepare_buys persist_sells scaled_buys place_buys place_buy settle
    range_check_if range_decision reject note_decision final_quantity persist_fill write_fill
    execution_terms market_rule_reference_price exact_decimal_product evaluate_reference
    evaluate_price_range_rule
traded_rows = (refl, refl, refl)

books-IsPosted : IsPosted fixed config market (pos 10_000_000) books
books-IsPosted = record {
  chained = tt;
  cash_posted = refl;
  distinct = tt;
  tied = tt;
  positions_posted = λ s. refl;
}

execute_reconciles_example :
    IsPosted fixed config market
      (pos 10_000_000)
      (record traded { cash = last_cash fixed (pos 10_000_000) traded.cash_ledger })
    × (traded.cash
        ≡ f_max fixed (f_zero fixed) (last_cash fixed (pos 10_000_000) traded.cash_ledger))
execute_reconciles_example =
    execute_reconciles fixed config market (pos 10_000_000) proposals books traded books-IsPosted
      committed

execute_accounts_example :
    (settled_rows fixed config market "k2" traded
      ≡ proposal_rows fixed config market "k2" proposals
        + settled_rows fixed config market "k2" books)
    ⊎ ((sales : List (Ready fixed config market)) × (b1 : Books ℤ) × (left : List (Proposal ℤ))
        × (required : ℤ) × (b2 : Books ℤ) × (prepare_sells fixed config market
              (sells_of proposals)
              (record books { decisions = [] })
            ≡ ok (sales, b1))
        × (prepare_buys fixed config market (buys_of proposals) (f_zero fixed) b1
            ≡ ok (left, required, b2))
        × (fixed.lt (f_zero fixed) required ≡ false)
        × (settled_rows fixed config market "k2" traded
              + proposal_rows fixed config market "k2" left
            ≡ proposal_rows fixed config market "k2" proposals
              + settled_rows fixed config market "k2" books))
execute_accounts_example =
    execute_accounts fixed config market "k2" proposals books traded committed
