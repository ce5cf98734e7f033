-- ===== src/Quantity/Floor.antt =====
-- `floor_step` gives the greatest multiple of the step that is not above the value, exactly.
use native.Mathlib.Nat.{div-mul-le_self, lt-div-mul-add, mul_assoc, zero-mul, mul-pos}
use hermes_crypto_lab.Base.{
  ℕ, zero, suc, ◌+◌, ◌*◌, ◌/◌, ◌^◌, ◌≤◌, ◌<◌, ◌≡◌, refl, ap, ◌∙◌, false, arith, ok,
}
use hermes_crypto_lab.Base.Int.{
  ℤ, pos, pos_part, neg_part, ◌+ℤ◌, ◌-ℤ◌, int_laws, ltb_ℤ, ltb_ℤ-false,
}
use hermes_crypto_lab.Decimal.{finite}
use hermes_crypto_lab.Decimal.Digits.{
  num_digits, num_digits-mul, num_digits-shift, pos-num_digits, ten-pow-pos,
}
use hermes_crypto_lab.Decimal.Context.{fix, emax, emin}
use hermes_crypto_lab.Decimal.Exact.{IsBounded, fix_exact}
use hermes_crypto_lab.Decimal.Order.{◌≤ᴰ◌}
use hermes_crypto_lab.Quantity.Steps.{floor_units, floor_step}

-- The number of whole steps in a value: the floor of the ratio of two exact fractions.
abbrev pub whole_steps : ℕ → ℤ → ℕ → ℤ → ℕ
whole_steps c e d f = (c * 10 ^ (pos_part e + neg_part f)) / (d * 10 ^ (pos_part f + neg_part e))

module _ (c d : ℕ) (e f : ℤ) (value_ok : IsBounded c e) (step_ok : IsBounded d f) where
  abbrev denominator : ℕ
  denominator = d * 10 ^ (pos_part f + neg_part e)

  abbrev steps : ℕ
  steps = whole_steps c e d f

  denominator_pos : 0 < denominator
  denominator_pos = mul-pos step_ok.positive (ten-pow-pos (pos_part f + neg_part e))

  -- The multiple is not above the value, and the next one is.
  below_value : steps * d * 10 ^ (pos_part f + neg_part e) ≤ c * 10 ^ (pos_part e + neg_part f)
  below_value =
      rw (mul_assoc steps d (10 ^ (pos_part f + neg_part e)))
        (div-mul-le_self (c * 10 ^ (pos_part e + neg_part f)) denominator)

  above_value :
      c * 10 ^ (pos_part e + neg_part f) < (steps + 1) * d * 10 ^ (pos_part f + neg_part e)
  above_value =
      rw (mul_assoc (steps + 1) d (10 ^ (pos_part f + neg_part e)))
        (omega (arith, lt-div-mul-add {a = c * 10 ^ (pos_part e + neg_part f)} denominator_pos))

  zero_exact :
      (prec : ℕ)
      → num_digits d ≤ prec
      → fix prec false 0 (pos 0 +ℤ f) ≡ ok (finite false 0 (pos 0 +ℤ f))
  unfolding fix
  zero_exact prec wide =
      let x = pos 0 +ℤ f in
      let etiny = emin -ℤ pos prec +ℤ pos 1 in
      let low : ltb_ℤ x etiny ≡ false = ltb_ℤ-false x etiny (omega (int_laws, step_ok.above)) in
      let high : ltb_ℤ emax x ≡ false = ltb_ℤ-false emax x (omega (int_laws, step_ok.below)) in
      rw (low, high) refl

  multiple_exact :
      0 < steps
      → fix (num_digits steps + num_digits d) false (steps * d) (pos 0 +ℤ f)
        ≡ ok (finite false (steps * d) (pos 0 +ℤ f))
  multiple_exact positive =
      fix_exact _ false (steps * d) (pos 0 +ℤ f) (mul-pos positive step_ok.positive)
        (num_digits-mul steps d) (omega (int_laws, step_ok.above, pos-num_digits steps))
        (omega (
          int_laws,
          value_ok.below,
          num_digits-shift (steps * d) c (pos_part f + neg_part e) (pos_part e + neg_part f)
              (mul-pos positive step_ok.positive) below_value,
        ))

  context_exact :
      (k : ℕ)
      → k ≡ steps
      → fix (num_digits k + num_digits d) false (k * d) (pos 0 +ℤ f)
        ≡ ok (finite false (k * d) (pos 0 +ℤ f))
  context_exact zero e = rw (zero-mul d) (zero_exact _ (omega arith))
  context_exact (suc k) e = rw e (multiple_exact (omega arith))

  zero_plus : pos 0 +ℤ f ≡ f
  zero_plus = omega int_laws

  units_of_positive : floor_units (pos (c * 10 ^ (pos_part e + neg_part f))) denominator ≡ steps
  unfolding floor_units
  units_of_positive = refl

  -- For a positive value and step of bounded exponents, `floor_step` gives, exactly, a multiple of
  -- the step that is not above the value, and the next multiple is above it.
  pub floor_step_exact :
      (floor_step (finite false c e) (finite false d f) ≡ ok (finite false (steps * d) f))
      × (finite false (steps * d) f ≤ᴰ finite false c e)
      × ¬ (finite false ((steps + 1) * d) f ≤ᴰ finite false c e)
  unfolding floor_step floor_units
  floor_step_exact = (
    context_exact steps refl ∙ ap (λ (x : ℤ). ok (finite false (steps * d) x)) zero_plus,
    omega (arith, below_value),
    omega (arith, above_value),
  )
