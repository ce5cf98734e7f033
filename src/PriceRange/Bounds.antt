-- ===== src/PriceRange/Bounds.antt =====
-- The PRICE_RANGE decision against the exact bounds: the contexts of `_exact_decimal_product` are
-- wide enough, so no bound is rounded, and the decision is the comparison of exact numbers.
use mathlib.Core.Option
use hermes_crypto_lab.Base.{
  ◌≡◌, ◌↔◌, refl, ◌⊎◌, inl, inr, Option, none, some, Bool, true, false, ◌||◌, arith, ok, err,
  value_error, Bool-cases, raise_if-passed, not-or-false, Result, ◌∙◌,
}
use hermes_crypto_lab.Decimal.{
  Decimal, finite, special, is_finite, dec_leb, dec_zero, is_bounded_execution_rule_decimal,
}
use hermes_crypto_lab.Decimal.Context.{context_mul, digit_count}
use hermes_crypto_lab.Decimal.Order.{
  exact_product, ◌≤ᴰ◌, not-dec_ltb_iff, bounded-is_finite, is_finite-exact_product,
}
use hermes_crypto_lab.Decimal.Exact.{IsBounded-of_test, context_mul_exact}
use hermes_crypto_lab.PriceRange.{
  Side, RuleReferencePrice, RuleStatus, PriceRangeRuleEvidence, range_present, PriceRangeDecision,
  accepted, rejected, exact_decimal_product, is_true, is_order_side, usable_reference, multipliers,
  unbounded, inverted, below, above, bound_of, decision, decide_bounds, evaluate_reference,
  evaluate_present, evaluate_status, evaluate_price_range_rule,
}

-- The price is no less than reference * down and no more than reference * up, where these are set.
abbrev pub AboveLower : Decimal → Decimal → Option Decimal → Type 0
AboveLower reference price none = Unit
AboveLower reference price (some down) = exact_product reference down ≤ᴰ price

abbrev pub BelowUpper : Decimal → Decimal → Option Decimal → Type 0
BelowUpper reference price none = Unit
BelowUpper reference price (some up) = price ≤ᴰ exact_product reference up

abbrev pub InRange : Decimal → Decimal → Option Decimal × Option Decimal → Type 0
InRange reference price (down, up) = AboveLower reference price down × BelowUpper reference price up

-- The lower bound is not above the upper one, where both are set.
abbrev pub AreOrdered : Decimal → Option Decimal × Option Decimal → Type 0
AreOrdered reference (some down, some up) =
    exact_product reference down ≤ᴰ exact_product reference up
AreOrdered reference _ = Unit

-- `_exact_decimal_product` of bounded values is the exact product.
exact_decimal_product_exact :
    (a b : Decimal)
    → is_bounded_execution_rule_decimal a ≡ true
    → is_bounded_execution_rule_decimal b ≡ true
    → exact_decimal_product a b ≡ ok (exact_product a b)
unfolding exact_decimal_product context_mul digit_count
exact_decimal_product_exact (finite s c e) (finite t d f) p q =
    context_mul_exact _ s t c d e f (IsBounded-of_test s c e p).1 (IsBounded-of_test t d f q).1
      (omega arith)
exact_decimal_product_exact (finite s c e) special p q = refl
exact_decimal_product_exact special b p q = refl

bound_of_exact :
    (reference : Decimal) (m : Option Decimal)
    → is_bounded_execution_rule_decimal reference ≡ true
    → unbounded m ≡ false
    → bound_of reference m ≡ ok (Option.map (exact_product reference) m)
bound_of_exact reference none p q = refl
bound_of_exact reference (some m) p q =
    rw (exact_decimal_product_exact reference m p (ground arith))

module _ (reference price : Decimal) (ref_ok : is_bounded_execution_rule_decimal reference ≡ true)
    (price_ok : is_finite price ≡ true) where
  product_finite :
      (m : Decimal) → unbounded (some m) ≡ false → is_finite (exact_product reference m) ≡ true
  product_finite m h =
      is_finite-exact_product reference m (bounded-is_finite reference ref_ok)
        (bounded-is_finite m (ground arith))

  below_iff :
      (down : Option Decimal)
      → unbounded down ≡ false
      → (below price (Option.map (exact_product reference) down) ≡ false)
        ↔ AboveLower reference price down
  below_iff none h = (λ _. tt, λ _. refl)
  below_iff (some m) h =
      not-dec_ltb_iff price (exact_product reference m) price_ok (product_finite m h)

  above_iff :
      (up : Option Decimal)
      → unbounded up ≡ false
      → (above price (Option.map (exact_product reference) up) ≡ false)
        ↔ BelowUpper reference price up
  above_iff none h = (λ _. tt, λ _. refl)
  above_iff (some m) h =
      not-dec_ltb_iff (exact_product reference m) price (product_finite m h) price_ok

  inverted_iff :
      (ms : Option Decimal × Option Decimal)
      → unbounded ms.0 ≡ false
      → unbounded ms.1 ≡ false
      → (inverted
            (Option.map (exact_product reference) ms.0)
            (Option.map (exact_product reference) ms.1)
          ≡ false)
        ↔ AreOrdered reference ms
  inverted_iff (some down, some up) p q =
      not-dec_ltb_iff (exact_product reference up) (exact_product reference down)
        (product_finite up q) (product_finite down p)
  inverted_iff (some down, none) p q = (λ _. tt, λ _. refl)
  inverted_iff (none, up) p q = (λ _. tt, λ _. refl)

  -- With a bounded reference price and bounded multipliers the evaluation compares the price
  -- with the exact bounds.
  evaluate_reference_exact :
      (ms : Option Decimal × Option Decimal)
      → unbounded ms.0 ≡ false
      → unbounded ms.1 ≡ false
      → evaluate_reference reference ms price
        ≡ decide_bounds price
            (Option.map (exact_product reference) ms.0)
            (Option.map (exact_product reference) ms.1)
  unfolding evaluate_reference
  evaluate_reference_exact (down, up) p q =
      rw
        (ref_ok, p, q, bound_of_exact reference down ref_ok p, bound_of_exact reference up ref_ok q)

-- What a decision says when it is `accepted`, and when it is not.
decide_bounds_accepted :
    (price : Decimal) (lower upper : Option Decimal) (d : PriceRangeDecision)
    → decide_bounds price lower upper ≡ ok d
    → (d.outcome ≡ accepted) ↔ ((below price lower ≡ false) × (above price upper ≡ false))
decide_bounds_accepted price lower upper d h = (λ a. ground arith, λ b. ground arith)

-- A step of a chain that ended well let its guard pass.
guards_passed :
    (ref price : Decimal) (ms : Option Decimal × Option Decimal) (d : PriceRangeDecision)
    → evaluate_reference ref ms price ≡ ok d
    → (is_bounded_execution_rule_decimal ref ≡ true)
      × (unbounded ms.0 ≡ false)
      × (unbounded ms.1 ≡ false)
unfolding evaluate_reference
guards_passed ref price (down, up) d h = ground arith

evaluate_reference_accepted :
    (ref price : Decimal) (ms : Option Decimal × Option Decimal) (d : PriceRangeDecision)
    → is_finite price ≡ true
    → evaluate_reference ref ms price ≡ ok d
    → (d.outcome ≡ accepted) ↔ InRange ref price ms
evaluate_reference_accepted ref price (down, up) d fin h =
    let (bounded, p, q) = guards_passed ref price (down, up) d h in
    let exact = rw (evaluate_reference_exact ref price bounded fin (down, up) p q) at h in
    let (to, from) = decide_bounds_accepted price _ _ d exact in
    let lower = below_iff ref price bounded fin down p in
    let upper = above_iff ref price bounded fin up q in
    (λ a. (lower.0 (to a).0, upper.0 (to a).1), λ r. from (lower.1 r.0, upper.1 r.1))

status_accepted :
    (status : RuleStatus) (present : Bool) (rest : Result PriceRangeDecision)
    (d : PriceRangeDecision)
    → evaluate_status status present rest ≡ ok d
    → d.outcome ≡ accepted
    → (status ≡ range_present) × (present ≡ true) × (rest ≡ ok d)
status_accepted range_present present rest d h a = ground arith
status_accepted _ present rest d h a = ground arith

present_accepted :
    (reference : Option Decimal) (ms : Option Decimal × Option Decimal) (price : Decimal)
    (d : PriceRangeDecision)
    → is_finite price ≡ true
    → evaluate_present reference ms price ≡ ok d
    → d.outcome ≡ accepted
    → (ref : Decimal) × (reference ≡ some ref) × InRange ref price ms
present_accepted none ms price d fin h a = absurd (ground arith)
present_accepted (some ref) ms price d fin h a =
    (ref, refl, (evaluate_reference_accepted ref price ms d fin h).0 a)

is_true-some : (o : Option Bool) → is_true o ≡ true → o ≡ some true
is_true-some o h = ground arith

guards_of_evaluate :
    (rule : PriceRangeRuleEvidence) (reference : Option RuleReferencePrice) (side : Side)
    (price : Decimal) (d : PriceRangeDecision)
    → evaluate_price_range_rule rule reference side price ≡ ok d
    → (is_finite price ≡ true)
      × (evaluate_status rule.status
            (is_true rule.price_range_present)
            (evaluate_present (usable_reference reference) (multipliers rule side) price)
          ≡ ok d)
unfolding evaluate_price_range_rule
guards_of_evaluate rule reference side price d h =
    let (_, h') = raise_if-passed _ _ _ h in
    let (ok_price, h'') = raise_if-passed _ _ _ h' in
    (not-or-false (is_finite price) (dec_leb price dec_zero) ok_price, h'')

-- An accepted price has present evidence, a reference price, and lies between the exact products
-- of the reference price and the side's multipliers.
pub accepted_sound :
    (rule : PriceRangeRuleEvidence) (reference : Option RuleReferencePrice) (side : Side)
    (price : Decimal) (d : PriceRangeDecision)
    → evaluate_price_range_rule rule reference side price ≡ ok d
    → d.outcome ≡ accepted
    → (rule.status ≡ range_present)
      × (rule.price_range_present ≡ some true)
      × ((ref : Decimal) × (usable_reference reference ≡ some ref)
          × InRange ref price (multipliers rule side))
accepted_sound rule reference side price d h a =
    let (fin, dispatched) = guards_of_evaluate rule reference side price d h in
    let (status, present, rest) = status_accepted rule.status _ _ d dispatched a in
    (status, is_true-some rule.price_range_present present, present_accepted _ _ price d fin rest a)

decide_bounds_cases :
    (price : Decimal) (lower upper : Option Decimal)
    → ((inverted lower upper ≡ true)
        × (decide_bounds price lower upper ≡ err (value_error "PRICE_RANGE bounds are inverted")))
      ⊎ ((d : PriceRangeDecision) × (inverted lower upper ≡ false)
          × (decide_bounds price lower upper ≡ ok d)
          × ((d.outcome ≡ accepted) ⊎ (d.outcome ≡ rejected)))
decide_bounds_cases price lower upper = elim (Bool-cases (inverted lower upper)) [
  | inl bad ↦ inl (bad, rw bad refl)
  | inr good ↦ elim (Bool-cases (below price lower || above price upper)) [
    | inl out ↦ inr (
      decision rejected (some "EXECUTION_RULE_PRICE_RANGE_EXCEEDED") lower upper,
      good,
      rw (good, out) refl,
      inr refl,
    )
    | inr within ↦ inr (decision accepted none lower upper, good, rw (good, within) refl, inl refl)
  ]
]

evaluate_usable :
    (rule : PriceRangeRuleEvidence) (r : RuleReferencePrice) (side : Side) (price ref : Decimal)
    → is_order_side side ≡ true
    → is_finite price ≡ true
    → dec_leb price dec_zero ≡ false
    → rule.status ≡ range_present
    → rule.price_range_present ≡ some true
    → usable_reference (some r) ≡ some ref
    → evaluate_price_range_rule rule (some r) side price
      ≡ evaluate_reference ref (multipliers rule side) price
unfolding evaluate_price_range_rule
evaluate_usable rule r side price ref ok_side fin positive st pr usable =
    rw (ok_side, fin, positive, st, pr, usable) refl

-- With present evidence, a bounded reference price, and multipliers that are unset or bounded, the
-- evaluation of a positive price raises exactly when both multipliers are set and the exact lower
-- bound is above the exact upper one. Otherwise it decides: `accepted` exactly when the price lies
-- between the exact bounds, and `rejected` otherwise.
pub evaluate_decides :
    (rule : PriceRangeRuleEvidence) (r : RuleReferencePrice) (side : Side) (price ref : Decimal)
    → is_order_side side ≡ true
    → is_finite price ≡ true
    → dec_leb price dec_zero ≡ false
    → rule.status ≡ range_present
    → rule.price_range_present ≡ some true
    → usable_reference (some r) ≡ some ref
    → is_bounded_execution_rule_decimal ref ≡ true
    → unbounded (multipliers rule side).0 ≡ false
    → unbounded (multipliers rule side).1 ≡ false
    → (¬ AreOrdered ref (multipliers rule side)
        × (evaluate_price_range_rule rule (some r) side price
            ≡ err (value_error "PRICE_RANGE bounds are inverted")))
      ⊎ ((d : PriceRangeDecision) × AreOrdered ref (multipliers rule side)
          × (evaluate_price_range_rule rule (some r) side price ≡ ok d)
          × ((d.outcome ≡ accepted) ⊎ (d.outcome ≡ rejected))
          × ((d.outcome ≡ accepted) ↔ InRange ref price (multipliers rule side)))
evaluate_decides rule r side price ref ok_side fin positive st pr usable bounded p q =
    let computed : evaluate_price_range_rule rule (some r) side price
        ≡ evaluate_reference ref (multipliers rule side) price =
      evaluate_usable rule r side price ref ok_side fin positive st pr usable in
    let exact = evaluate_reference_exact ref price bounded fin (multipliers rule side) p q in
    let (to_order, from_order) = inverted_iff ref price bounded fin (multipliers rule side) p q in
    elim (decide_bounds_cases price (Option.map (exact_product ref) (multipliers rule side).0)
      (Option.map (exact_product ref) (multipliers rule side).1)) [
        | inl (bad, raised) ↦
            inl ((λ ordered. absurd (cc (bad, from_order ordered))), computed ∙ exact ∙ raised)
        | inr (d, good, decided, two) ↦ inr (
          d,
          to_order good,
          computed ∙ exact ∙ decided,
          two,
          evaluate_reference_accepted ref price (multipliers rule side) d fin (exact ∙ decided),
        )
      ]
