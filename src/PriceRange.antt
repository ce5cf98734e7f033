-- ===== src/PriceRange.antt =====
-- The PRICE_RANGE rule of src/paper_broker.py: public evidence of a symbol's multipliers and
-- reference price, and the decision that `evaluate_price_range_rule` takes from it.
pub mod Bounds
pub mod Evidence
pub mod Freshness
use Prim.Native.Nat.{max}
use hermes_crypto_lab.Base.{
  ℕ, ◌+◌, String, Option, none, some, Bool, true, false, ◌&&◌, ◌||◌, not, if◌then◌else◌, Result, ok,
  err, value_error, raise_if, ◌>>=◌, ◌>>◌,
}
use hermes_crypto_lab.Decimal.{
  Decimal, is_finite, dec_ltb, dec_leb, dec_zero, is_bounded_execution_rule_decimal,
}
use hermes_crypto_lab.Decimal.Context.{context_mul, digit_count}
use hermes_crypto_lab.Time.{Timestamp}

pub data Side : Type 0 where
  buy sell : Side
  other_side : String → Side

-- `source`: the text "REFERENCE_PRICE" or another one
pub data ReferenceSource : Type 0 where
  reference_price : ReferenceSource
  other_source : String → ReferenceSource

pub record RuleReferencePrice : Type 0 where
  pub price : Option Decimal
  pub source : ReferenceSource
  pub timestamp : Option Timestamp
  pub acquired_at : Option Timestamp

-- `status`: one of the five texts that the source knows, or another one
pub data RuleStatus : Type 0 where
  range_present range_absent rule_not_applicable transport_failure malformed_response : RuleStatus
  other_status : String → RuleStatus

pub record PriceRangeRuleEvidence : Type 0 where
  pub symbol : String
  pub native_symbol : Option String
  pub status : RuleStatus
  pub price_range_present : Option Bool
  pub bid_limit_mult_up : Option Decimal
  pub bid_limit_mult_down : Option Decimal
  pub ask_limit_mult_up : Option Decimal
  pub ask_limit_mult_down : Option Decimal
  pub source_timestamp : Option Timestamp
  pub acquired_at : Option Timestamp

pub data RangeOutcome : Type 0 where
  accepted rejected not_enforced evidence_unavailable : RangeOutcome

pub record PriceRangeDecision : Type 0 where
  pub outcome : RangeOutcome
  pub reason : Option String
  pub lower_bound : Option Decimal
  pub upper_bound : Option Decimal

-- `_exact_decimal_product`
unfoldable pub exact_decimal_product : Decimal → Decimal → Result Decimal
exact_decimal_product left right =
    context_mul (max 28 (digit_count left + digit_count right)) left right

abbrev pub is_true : Option Bool → Bool
is_true (some b) = b
is_true none = false

abbrev pub is_order_side : Side → Bool
is_order_side buy = true
is_order_side sell = true
is_order_side (other_side s) = false

-- The reference price, if there is a reference of the right source that has one.
abbrev pub reference_value : ReferenceSource → Option Decimal → Option Decimal
reference_value reference_price p = p
reference_value (other_source s) p = none

abbrev pub usable_reference : Option RuleReferencePrice → Option Decimal
usable_reference none = none
usable_reference (some r) = reference_value r.source r.price

-- The pair (lower multiplier, upper multiplier) of a side.
abbrev pub multipliers : PriceRangeRuleEvidence → Side → Option Decimal × Option Decimal
multipliers rule buy = (rule.bid_limit_mult_down, rule.bid_limit_mult_up)
multipliers rule _ = (rule.ask_limit_mult_down, rule.ask_limit_mult_up)

-- `value is not None and not is_bounded_execution_rule_decimal(value)`
abbrev pub unbounded : Option Decimal → Bool
unbounded none = false
unbounded (some m) = not (is_bounded_execution_rule_decimal m)

-- `_exact_decimal_product(price, m) if m is not None else None`
abbrev pub bound_of : Decimal → Option Decimal → Result (Option Decimal)
bound_of price none = ok none
bound_of price (some m) = do b ← exact_decimal_product price m; ok (some b)

abbrev pub inverted : Option Decimal → Option Decimal → Bool
inverted (some lower) (some upper) = dec_ltb upper lower
inverted _ _ = false

-- `lower is not None and price < lower`
abbrev pub below : Decimal → Option Decimal → Bool
below price none = false
below price (some lower) = dec_ltb price lower

-- `upper is not None and price > upper`
abbrev pub above : Decimal → Option Decimal → Bool
above price none = false
above price (some upper) = dec_ltb upper price

abbrev pub decision :
    RangeOutcome → Option String → Option Decimal → Option Decimal → PriceRangeDecision
decision o why lower upper = record {
  outcome = o;
  reason = why;
  lower_bound = lower;
  upper_bound = upper;
}

abbrev pub decide_bounds : Decimal → Option Decimal → Option Decimal → Result PriceRangeDecision
decide_bounds price lower upper =
    if inverted lower upper
    then err (value_error "PRICE_RANGE bounds are inverted")
    else if below price lower || above price upper
    then ok (decision rejected (some "EXECUTION_RULE_PRICE_RANGE_EXCEEDED") lower upper)
    else ok (decision accepted none lower upper)

abbrev pub unbounded_decision : RangeOutcome → String → Result PriceRangeDecision
unbounded_decision o why = ok (decision o (some why) none none)

-- The part of the evaluation that has a reference price.
unfoldable pub evaluate_reference :
    Decimal → Option Decimal × Option Decimal → Decimal → Result PriceRangeDecision
evaluate_reference reference (lower_multiplier, upper_multiplier) price = do
  raise_if (not (is_bounded_execution_rule_decimal reference))
      (value_error "PRICE_RANGE reference price is invalid")
  raise_if (unbounded lower_multiplier || unbounded upper_multiplier)
      (value_error "PRICE_RANGE multiplier is invalid")
  lower ← bound_of reference lower_multiplier
  upper ← bound_of reference upper_multiplier
  decide_bounds price lower upper

abbrev pub evaluate_present :
    Option Decimal → Option Decimal × Option Decimal → Decimal → Result PriceRangeDecision
evaluate_present none ms price = unbounded_decision not_enforced "PRICE_RANGE_REFERENCE_UNAVAILABLE"
evaluate_present (some reference) ms price = evaluate_reference reference ms price

-- The dispatch on `rule.status`.
abbrev pub evaluate_status :
    RuleStatus → Bool → Result PriceRangeDecision → Result PriceRangeDecision
evaluate_status transport_failure present rest =
    unbounded_decision evidence_unavailable "EXECUTION_RULE_EVIDENCE_UNAVAILABLE"
evaluate_status malformed_response present rest =
    unbounded_decision evidence_unavailable "EXECUTION_RULE_EVIDENCE_UNAVAILABLE"
evaluate_status range_absent present rest =
    unbounded_decision not_enforced "PRICE_RANGE_RULE_ABSENT"
evaluate_status rule_not_applicable present rest =
    unbounded_decision not_enforced "PRICE_RANGE_RULE_ABSENT"
evaluate_status range_present present rest =
    if present then rest else err (value_error "PRICE_RANGE evidence status is invalid")
evaluate_status (other_status s) present rest =
    err (value_error "PRICE_RANGE evidence status is invalid")

unfoldable pub evaluate_price_range_rule :
    PriceRangeRuleEvidence → Option RuleReferencePrice → Side → Decimal → Result PriceRangeDecision
evaluate_price_range_rule rule reference side price = do
  raise_if (not (is_order_side side)) (value_error "PRICE_RANGE side must be BUY or SELL")
  raise_if (not (is_finite price) || dec_leb price dec_zero)
      (value_error "PRICE_RANGE simulated execution price is invalid")
  evaluate_status rule.status (is_true rule.price_range_present)
      (evaluate_present (usable_reference reference) (multipliers rule side) price)
