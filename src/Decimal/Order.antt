-- ===== src/Decimal/Order.antt =====
-- The order of finite decimals as a relation, and what the Boolean comparisons say of it.
use native.Mathlib.Nat.{mul-pos}
use hermes_crypto_lab.Decimal.Digits.{ten-pow-pos}
use hermes_crypto_lab.Base.{zero, suc, ◌+◌, ◌^◌, ◌*◌, ◌≡◌, ◌↔◌, true, false, arith}
use hermes_crypto_lab.Base.Int.{◌+ℤ◌, ◌≤ℤ◌, ltb_ℤ-false, le_of_ltb_ℤ-false, pos_part}
use hermes_crypto_lab.Decimal.{
  Decimal, finite, special, scaled, is_finite, dec_ltb, dec_leb, dec_zero,
  is_bounded_execution_rule_decimal,
}
use hermes_crypto_lab.Decimal.Context.{xor}

-- The exact product, with no context.
abbrev pub exact_product : Decimal → Decimal → Decimal
exact_product (finite s c e) (finite t d f) = finite (xor s t) (c * d) (e +ℤ f)
exact_product _ _ = special

-- Finite values are ordered by their numerators over a common power of ten.
infix 50 ◌≤ᴰ◌
abbrev pub ◌≤ᴰ◌ : Decimal → Decimal → Type 0
finite s c e ≤ᴰ finite t d f = scaled s c e f ≤ℤ scaled t d f e
_ ≤ᴰ _ = ⊥

-- A comparison `x < y` of finite values that fails is the order the other way round.
pub not-dec_ltb_iff :
    (x y : Decimal) → is_finite x ≡ true → is_finite y ≡ true → (dec_ltb x y ≡ false) ↔ (y ≤ᴰ x)
unfolding dec_ltb is_finite
not-dec_ltb_iff (finite s c e) (finite t d f) p q = (
  le_of_ltb_ℤ-false (scaled s c e f) (scaled t d f e),
  ltb_ℤ-false (scaled s c e f) (scaled t d f e),
)
not-dec_ltb_iff (finite s c e) special p q = absurd (cc q)
not-dec_ltb_iff special y p q = absurd (cc p)

pub bounded-is_finite :
    (a : Decimal) → is_bounded_execution_rule_decimal a ≡ true → is_finite a ≡ true
unfolding is_bounded_execution_rule_decimal
bounded-is_finite (finite s c e) h = ground arith
bounded-is_finite special h = h

pub is_finite-exact_product :
    (a b : Decimal) → is_finite a ≡ true → is_finite b ≡ true → is_finite (exact_product a b) ≡ true
unfolding is_finite
is_finite-exact_product (finite s c e) (finite t d f) p q = p
is_finite-exact_product (finite s c e) special p q = q
is_finite-exact_product special b p q = p

-- What is not below a value of zero or more is itself zero or more.
pub nonneg_of_not-dec_leb :
    (d t : Decimal)
    → is_finite d ≡ true
    → dec_leb dec_zero t ≡ true
    → dec_leb d t ≡ false
    → dec_leb dec_zero d ≡ true
unfolding dec_leb is_finite
nonneg_of_not-dec_leb (finite false c e) (finite s a f) fin p h = ground arith
nonneg_of_not-dec_leb (finite true c e) (finite false a f) fin p h = absurd (ground arith)
nonneg_of_not-dec_leb (finite true c e) (finite true zero f) fin p h = absurd (ground arith)
nonneg_of_not-dec_leb (finite true c e) (finite true (suc a) f) fin p h = absurd (
    ground (
      arith,
      mul-pos {m = suc a} {n = 10 ^ (pos_part f + 0)} (omega arith) (ten-pow-pos (pos_part f + 0)),
    ))
nonneg_of_not-dec_leb (finite s c e) special fin p h = absurd (cc p)
nonneg_of_not-dec_leb special t fin p h = absurd (cc fin)
