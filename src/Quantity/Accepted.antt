-- ===== src/Quantity/Accepted.antt =====
-- From the filters on the final quantity to the whole of `_normalize_exchange_quantity`.
use hermes_crypto_lab.Base.{
  ◌≡◌, refl, Option, none, some, Bool, true, false, arith, Result, ok, any_of, not-or-false,
}
use hermes_crypto_lab.Decimal.{Decimal, is_finite, dec_leb, dec_zero}
use hermes_crypto_lab.Float.{FloatOps}
use hermes_crypto_lab.Quantity.{
  SymbolRules, ReferenceArgument, decimal_price, float_price, no_price, Normalized, executable,
  malformed, all_limits, limits_of, exact_reference, floor_to, between_floors, quantize,
  with_reference, with_rules, normalize_exchange_quantity,
}
use hermes_crypto_lab.Quantity.Filters.{
  MeetsFilters, refuse_if-accepted, except_refuse-accepted, final_accepted, is_finite-floor_step,
}

module _ (fl : FloatOps) where
  open fl use {F, isfinite, le, to_decimal, of_decimal}

  is_finite-floor_to :
      (step : Option Decimal) (x d : Decimal)
      → is_finite x ≡ true
      → floor_to fl step x ≡ ok d
      → is_finite d ≡ true
  is_finite-floor_to none x d fin h = ground arith
  is_finite-floor_to (some m) x d fin h = ground (arith, is_finite-floor_step x m d)

  between_floors_accepted :
      (tolerance : F) (r : SymbolRules F) (reference lot : Decimal) (x : F)
      → any_of malformed (all_limits (limits_of fl r)) ≡ false
      → is_finite lot ≡ true
      → is_finite reference ≡ true
      → between_floors fl tolerance r (limits_of fl r) reference lot ≡ ok (executable x)
      → (d : Decimal) × (x ≡ of_decimal d) × MeetsFilters fl tolerance r reference d
  unfolding between_floors
  between_floors_accepted tolerance r reference lot x ok_limits fin ref_fin h =
      let (a, h1) = refuse_if-accepted fl _ _ _ x h in
      let (b, h2) = refuse_if-accepted fl _ _ _ x h1 in
      let (c, h3) = refuse_if-accepted fl _ _ _ x h2 in
      let (d, market, h4) = except_refuse-accepted fl _ _ _ x h3 in
      let d_fin = is_finite-floor_to (limits_of fl r).market_step lot d fin market in
      let (same, met) = final_accepted fl tolerance r reference d x ok_limits d_fin ref_fin h4 in
      (d, same, met)

  quantize_accepted :
      (tolerance : F) (r : SymbolRules F) (reference : Decimal) (quantity x : F)
      → any_of malformed (all_limits (limits_of fl r)) ≡ false
      → is_finite (to_decimal quantity) ≡ true
      → is_finite reference ≡ true
      → quantize fl tolerance r (limits_of fl r) reference quantity ≡ ok (executable x)
      → (d : Decimal) × (x ≡ of_decimal d) × MeetsFilters fl tolerance r reference d
  unfolding quantize
  quantize_accepted tolerance r reference quantity x ok_limits fin ref_fin h =
      let (lot, floored, h0) = except_refuse-accepted fl _ _ _ x h in
      let lot_fin =
        is_finite-floor_to (limits_of fl r).step_size (to_decimal quantity) lot fin floored in
      between_floors_accepted tolerance r reference lot x ok_limits lot_fin ref_fin h0

  exact_reference_finite :
      (reference : ReferenceArgument F) (price : Decimal)
      → exact_reference fl reference ≡ some price
      → is_finite price ≡ true
  exact_reference_finite (decimal_price d) price h = ground arith
  exact_reference_finite (float_price d) price h = ground arith
  exact_reference_finite no_price price h = absurd (cc h)

  with_reference_accepted :
      (o : Option Decimal) (rest : Decimal → Result (Normalized F)) (x : F)
      → with_reference fl o rest ≡ ok (executable x)
      → (price : Decimal) × (o ≡ some price)
        × (dec_leb price dec_zero ≡ false)
        × (rest price ≡ ok (executable x))
  with_reference_accepted none rest x h = absurd (cc h)
  with_reference_accepted (some price) rest x h =
      let (p, h') = refuse_if-accepted fl _ _ _ x h in (price, refl, p, h')

  -- A quantity that is let through under a symbol's rules comes from an exact decimal that lies on
  -- the LOT_SIZE and MARKET_LOT_SIZE grids and between their limits, where these are set, is more
  -- than the tolerance, and whose notional at the reference price meets the filters that apply;
  -- the symbol is tradable by market orders, and the reference price is finite and positive. It is assumed
  -- that the text of a finite float is a finite decimal.
  pub normalized-MeetsFilters :
      ((y : F) → isfinite y ≡ true → is_finite (to_decimal y) ≡ true)
      → (required : Bool) (tolerance : F) (r : SymbolRules F) (quantity : F)
        (reference : ReferenceArgument F) (x : F)
      → normalize_exchange_quantity fl required tolerance (some r) quantity reference
        ≡ ok (executable x)
      → (r.active ≡ true)
        × (r.market_order_allowed ≡ true)
        × ((price d : Decimal) × (exact_reference fl reference ≡ some price)
            × (dec_leb price dec_zero ≡ false)
            × (x ≡ of_decimal d)
            × MeetsFilters fl tolerance r price d)
  unfolding normalize_exchange_quantity with_rules
  normalized-MeetsFilters text_finite required tolerance r quantity reference x h =
      let (a, h0) = refuse_if-accepted fl _ _ _ x h in
      let (active, h1) = refuse_if-accepted fl _ _ _ x h0 in
      let (market, h2) = refuse_if-accepted fl _ _ _ x h1 in
      let (limits, h3) = refuse_if-accepted fl _ _ _ x h2 in
      let (c1, h4) = refuse_if-accepted fl _ _ _ x h3 in
      let (c2, h5) = refuse_if-accepted fl _ _ _ x h4 in
      let (c3, h6) = refuse_if-accepted fl _ _ _ x h5 in
      let (c4, h7) = refuse_if-accepted fl _ _ _ x h6 in
      let (price, known, positive, h8) = with_reference_accepted _ _ x h7 in
      let fin : is_finite (to_decimal quantity) ≡ true =
        text_finite quantity (not-or-false _ _ a) in
      let (d, same, met) =
        quantize_accepted tolerance r price quantity x limits fin
          (exact_reference_finite reference price known) h8 in
      (ground arith, ground arith, (price, d, known, positive, same, met))
