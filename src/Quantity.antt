-- ===== src/Quantity.antt =====
-- `SymbolRules` and `_normalize_exchange_quantity` of src/paper_broker.py: an order quantity is
-- floored to the exchange's grids, in exact decimals, and tested against every filter.
pub mod Steps
mod Rules
pub mod Filters
pub mod Accepted
pub mod Floor
use hermes_crypto_lab.Base.{
  String, Option, none, some, Bool, true, false, ◌&&◌, ◌||◌, not, ltb, if◌then◌else◌, is_none,
  any_of, Result, ok, err, value_error, ◌+◌, ◌>>=◌,
}
use hermes_crypto_lab.Decimal.{Decimal, dec_ltb, dec_leb, dec_zero}
use hermes_crypto_lab.Decimal.Context.{context_mul, digit_count}
use hermes_crypto_lab.Float.{FloatOps, f_zero}
use Steps.{floor_step, step_aligned}
unfoldable pub use Rules.*

module _ (fl : FloatOps) where
  open fl use {F, isfinite, lt, le, to_decimal, of_decimal}

  -- The local function `exact`.
  abbrev pub exact_float : F → Option Decimal
  exact_float x = finite_or_none (to_decimal x)

  abbrev pub exact_option : Option F → Option Decimal
  exact_option none = none
  exact_option (some x) = exact_float x

  abbrev pub exact_reference : ReferenceArgument F → Option Decimal
  exact_reference (decimal_price d) = finite_or_none d
  exact_reference (float_price x) = exact_float x
  exact_reference no_price = none

  -- `raw if raw is not None else exact(value)`
  abbrev pub raw_or : Option Decimal → Option Decimal → Option Decimal
  raw_or none other = other
  raw_or (some d) other = some d

  unfoldable pub limits_of : SymbolRules F → Limits
  limits_of r = record {
    min_quantity = raw_or r.raw_min_quantity (exact_float r.min_quantity);
    max_quantity = raw_or r.raw_max_quantity (exact_option r.max_quantity);
    step_size = raw_or r.raw_step_size (exact_float r.step_size);
    market_min = raw_or r.raw_market_min_quantity (exact_option r.market_min_quantity);
    market_max = raw_or r.raw_market_max_quantity (exact_option r.market_max_quantity);
    market_step = raw_or r.raw_market_step_size (exact_option r.market_step_size);
    min_notional = raw_or r.raw_min_notional (exact_float r.min_notional);
    notional_min = raw_or r.raw_notional_min (exact_option r.notional_min);
    notional_max = raw_or r.raw_notional_max (exact_option r.notional_max);
  }

  -- `requires_average`
  unfoldable pub requires_average : SymbolRules F → Bool
  requires_average r =
      (r.min_notional_applies_to_market && ltb 0 r.min_notional_avg_price_mins)
      || (r.notional_min_applies_to_market && ltb 0 r.notional_avg_price_mins)
      || (r.notional_max_applies_to_market && ltb 0 r.notional_avg_price_mins)

  -- `not math.isfinite(value) or value <= 0`
  abbrev pub not_positive : F → Bool
  not_positive x = not (isfinite x) || le x (f_zero fl)

  abbrev pub bad_maximum : Option F → F → Bool
  bad_maximum none low = false
  bad_maximum (some high) low = not_positive high || lt high low

  -- The tests of the convenience floats that stand in for a missing exact value.
  unfoldable pub bad_legacy : SymbolRules F → Bool
  bad_legacy r =
      (is_none r.raw_min_quantity && not_positive r.min_quantity)
      || (is_none r.raw_step_size && not_positive r.step_size)
      || (is_none r.raw_min_notional
          && r.min_notional_applies_to_market
          && not_positive r.min_notional)
      || (is_none r.raw_max_quantity && bad_maximum r.max_quantity r.min_quantity)

  -- `isinstance(rule_reference_price, Decimal)`
  abbrev pub is_decimal : ReferenceArgument F → Bool
  is_decimal (decimal_price d) = true
  is_decimal _ = false

  -- `if condition: return None, reason`, and what follows.
  unfoldable pub refuse_if : Bool → String → Result (Normalized F) → Result (Normalized F)
  refuse_if condition reason rest = if condition then ok (refused reason) else rest

  -- `try: ... except (InvalidOperation, OverflowError, ValueError): return None, reason`. The
  -- signal `decimal.Overflow` is none of these.
  unfoldable pub except_refuse :
      Result Decimal → String → (Decimal → Result (Normalized F)) → Result (Normalized F)
  except_refuse (ok d) reason rest = rest d
  except_refuse (err (value_error m)) reason rest = ok (refused reason)
  except_refuse (err e) reason rest = err e

  -- The quantity, floored to a step if that is set.
  abbrev pub floor_to : Option Decimal → Decimal → Result Decimal
  floor_to none x = ok x
  floor_to (some step) x = if dec_ltb dec_zero step then floor_step x step else ok x

  -- A step that is set and does not divide the quantity.
  abbrev pub misaligned : Decimal → Option Decimal → Bool
  misaligned x none = false
  misaligned x (some step) = dec_ltb dec_zero step && not (step_aligned x step)

  -- `limit is None or notional < limit`
  abbrev pub under_or_missing : Decimal → Option Decimal → Bool
  under_or_missing x none = true
  under_or_missing x (some limit) = dec_ltb x limit

  -- `limit is None or (limit > 0 and notional > limit)`
  abbrev pub over_or_missing : Decimal → Option Decimal → Bool
  over_or_missing x none = true
  over_or_missing x (some limit) = dec_ltb dec_zero limit && dec_ltb limit x

  -- The filters on the notional of the final quantity.
  unfoldable pub notional_filters :
      SymbolRules F → Limits → Decimal → Decimal → Result (Normalized F)
  notional_filters r l quantity reference = do
    notional ← context_mul (digit_count quantity + digit_count reference) quantity reference
    refuse_if (r.min_notional_applies_to_market && under_or_missing notional l.min_notional)
        "below_min_notional"
        (refuse_if (r.notional_min_applies_to_market && under_or_missing notional l.notional_min)
          "below_market_notional"
          (refuse_if (r.notional_max_applies_to_market && over_or_missing notional l.notional_max)
            "above_market_notional" (ok (executable (of_decimal quantity)))))

  -- The filters on the final quantity, after both floors.
  unfoldable pub final_filters :
      F → SymbolRules F → Limits → Decimal → Decimal → Result (Normalized F)
  final_filters tolerance r l reference quantity =
      refuse_if (is_set l.market_min && under quantity l.market_min) "below_market_min_quantity" (
        refuse_if (is_set l.market_max && over quantity l.market_max) "above_market_max_quantity" (
          refuse_if (misaligned quantity l.market_step) "market_lot_step_mismatch" (
            refuse_if (dec_leb quantity (to_decimal tolerance)) "non_positive_quantity" (
              refuse_if (is_set l.min_quantity && under quantity l.min_quantity)
                "below_min_quantity"
                (refuse_if (is_set l.max_quantity && over quantity l.max_quantity)
                  "above_max_quantity"
                  (refuse_if (misaligned quantity l.step_size) "lot_step_mismatch"
                    (notional_filters r l quantity reference)))))))

  -- The tests between the two floors, and the second floor.
  unfoldable pub between_floors :
      F → SymbolRules F → Limits → Decimal → Decimal → Result (Normalized F)
  between_floors tolerance r l reference lot =
      refuse_if (dec_leb lot (to_decimal tolerance)) "non_positive_quantity" (
        refuse_if (is_set l.min_quantity && under lot l.min_quantity) "below_min_quantity" (
          refuse_if (is_set l.max_quantity && over lot l.max_quantity) "above_max_quantity" (
            except_refuse (floor_to l.market_step lot) "invalid_exchange_rules"
              (final_filters tolerance r l reference))))

  unfoldable pub quantize : F → SymbolRules F → Limits → Decimal → F → Result (Normalized F)
  quantize tolerance r l reference quantity =
      except_refuse (floor_to l.step_size (to_decimal quantity)) "invalid_quantity"
        (between_floors tolerance r l reference)

  abbrev pub with_reference :
      Option Decimal → (Decimal → Result (Normalized F)) → Result (Normalized F)
  with_reference none rest = ok (refused "invalid_exchange_rules")
  with_reference (some reference) rest =
      refuse_if (dec_leb reference dec_zero) "invalid_exchange_rules" (rest reference)

  -- The tests of the rules themselves, before the quantity is looked at.
  unfoldable pub with_rules : F → SymbolRules F → F → ReferenceArgument F → Result (Normalized F)
  with_rules tolerance r quantity reference =
      let l = limits_of r in
      refuse_if (not r.active) "symbol_not_tradable" (
        refuse_if (not r.market_order_allowed) "market_orders_not_allowed" (
          refuse_if (any_of malformed (all_limits l)) "invalid_exchange_rules" (
            refuse_if (crossed l.min_quantity l.max_quantity || crossed l.market_min l.market_max)
              "invalid_exchange_rules"
              (refuse_if (requires_average r && not (is_decimal reference))
                "market_notional_reference_unverifiable"
                (refuse_if (is_none (exact_reference reference) && requires_average r)
                  "market_notional_reference_unverifiable"
                  (refuse_if (bad_legacy r) "invalid_exchange_rules" (
                    with_reference (exact_reference reference)
                      (λ price. quantize tolerance r l price quantity))))))))

  abbrev pub without_rules : Bool → F → Result (Normalized F)
  without_rules required quantity =
      if required then ok (refused "missing_exchange_rules") else ok (executable quantity)

  abbrev pub by_rules :
      Bool → F → Option (SymbolRules F) → F → ReferenceArgument F → Result (Normalized F)
  by_rules required tolerance none quantity reference = without_rules required quantity
  by_rules required tolerance (some r) quantity reference =
      with_rules tolerance r quantity reference

  -- `required` is the configuration's `require_exchange_rules`, `tolerance` its
  -- `quantity_tolerance`, and the rules are `snapshot.symbol_rules.get(symbol)`.
  unfoldable pub normalize_exchange_quantity :
      Bool → F → Option (SymbolRules F) → F → ReferenceArgument F → Result (Normalized F)
  normalize_exchange_quantity required tolerance rules quantity reference =
      refuse_if (not (isfinite quantity) || le quantity tolerance) "non_positive_quantity"
        (by_rules required tolerance rules quantity reference)
