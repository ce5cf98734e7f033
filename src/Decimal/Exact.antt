-- ===== src/Decimal/Exact.antt =====
-- A product whose digits fit the precision, with exponents away from the limits, is exact.
use native.Mathlib.Nat.{mul-pos}
use hermes_crypto_lab.Base.{
  ℕ, ◌+◌, ◌*◌, ◌≤◌, ◌<◌, ◌≡◌, refl, Bool, true, false, arith, ok, ◌==◌, zero, suc, leb→le, and-true,
}
use hermes_crypto_lab.Base.Int.{
  ℤ, pos, ◌+ℤ◌, ◌-ℤ◌, ◌≤ℤ◌, int_laws, ltb_ℤ, max_ℤ, ltb_ℤ-false, max_ℤ-le,
}
use hermes_crypto_lab.Decimal.{
  finite, dec_ltb, is_bounded_execution_rule_decimal, adjusted, magnitude, dec_zero,
}
use hermes_crypto_lab.Decimal.Digits.{num_digits, num_digits-mul, pos-num_digits}
use hermes_crypto_lab.Decimal.Context.{fix, context_mul, xor, emax, emin}

pub fix_exact :
    (prec : ℕ) (s : Bool) (c : ℕ) (e : ℤ)
    → 0 < c
    → num_digits c ≤ prec
    → emin +ℤ pos 1 ≤ℤ e +ℤ pos prec
    → e +ℤ pos (num_digits c) ≤ℤ emax +ℤ pos 1
    → fix prec s c e ≡ ok (finite s c e)
unfolding fix
fix_exact prec s c e nonzero fits low high =
    let etiny = emin -ℤ pos prec +ℤ pos 1 in
    let etop = emax -ℤ pos prec +ℤ pos 1 in
    let exp_min = e +ℤ pos (num_digits c) -ℤ pos prec in
    let not_zero : (c == 0) ≡ false = ground arith in
    let no_overflow : ltb_ℤ etop exp_min ≡ false = ltb_ℤ-false etop exp_min (omega int_laws) in
    let not_tiny : ltb_ℤ e (max_ℤ exp_min etiny) ≡ false =
      ltb_ℤ-false e (max_ℤ exp_min etiny)
        (max_ℤ-le exp_min etiny e (omega int_laws) (omega int_laws)) in
    rw (not_zero, no_overflow, not_tiny) refl

-- What `is_bounded_execution_rule_decimal` accepts: a positive value whose leading digit stands
-- within a thousand places of the point.
pub record IsBounded (c : ℕ) (e : ℤ) : Type 0 where
  pub positive : 0 < c
  pub above : pos 1 ≤ℤ e +ℤ pos (num_digits c) +ℤ pos 1000
  pub below : e +ℤ pos (num_digits c) ≤ℤ pos 1001

positive_coefficient :
    (s : Bool) (c : ℕ) (e : ℤ) → dec_ltb dec_zero (finite s c e) ≡ true → (s ≡ false) × (0 < c)
unfolding dec_ltb
positive_coefficient false zero e h = absurd (ground arith)
positive_coefficient false (suc c) e h = (refl, omega arith)
positive_coefficient true c e h = absurd (ground arith)

pub IsBounded-of_test :
    (s : Bool) (c : ℕ) (e : ℤ)
    → is_bounded_execution_rule_decimal (finite s c e) ≡ true
    → (s ≡ false) × IsBounded c e
unfolding is_bounded_execution_rule_decimal
IsBounded-of_test s c e h =
    let (more, within) = and-true _ _ h in
    let (plus, nonzero) = positive_coefficient s c e more in
    let small : magnitude (adjusted (finite s c e)) ≤ 1000 = leb→le _ _ within in
    (plus, record { positive = nonzero; above = omega int_laws; below = omega int_laws })

-- The product of two bounded decimals in a context wide enough for the digits of both is exact:
-- neither rounded, nor clamped, nor an overflow.
pub context_mul_exact :
    (prec : ℕ) (s t : Bool) (c d : ℕ) (e f : ℤ)
    → IsBounded c e
    → IsBounded d f
    → num_digits c + num_digits d ≤ prec
    → context_mul prec (finite s c e) (finite t d f) ≡ ok (finite (xor s t) (c * d) (e +ℤ f))
unfolding context_mul
context_mul_exact prec s t c d e f p q fits =
    fix_exact prec (xor s t) (c * d) (e +ℤ f) (mul-pos p.positive q.positive)
      (omega (arith, num_digits-mul c d)) (omega (int_laws, p.above, q.above, pos-num_digits c))
      (omega (int_laws, p.below, q.below, num_digits-mul c d))
