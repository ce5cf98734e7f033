-- ===== src/Quantity/Steps.antt =====
-- The local functions `floor_step` and `step_aligned` of `_normalize_exchange_quantity`: integer
-- ratios of exact fractions, and one product in a context of enough digits.
use hermes_crypto_lab.Base.{
  ℕ, ◌+◌, ◌/◌, ◌%◌, ◌-◌, Bool, false, ltb, ◌==◌, if◌then◌else◌, Result, err, value_error,
}
use hermes_crypto_lab.Base.Int.{ℤ, pos, pos_part, neg_part}
use hermes_crypto_lab.Decimal.{Decimal, finite, scaled}
use hermes_crypto_lab.Decimal.Digits.{num_digits}
use hermes_crypto_lab.Decimal.Context.{context_mul}

-- `abs(Fraction(value) // Fraction(step))` from the integer ratio: the floor of a negative ratio
-- is the negative of the ratio rounded up.
unfoldable pub floor_units : ℤ → ℕ → ℕ
floor_units n d = if ltb 0 (neg_part n) then (neg_part n + d - 1) / d else pos_part n / d

-- The steps are positive where the source calls these, so `d` below is the numerator of the step.
unfoldable pub floor_step : Decimal → Decimal → Result Decimal
unfolding context_mul
floor_step (finite s c e) (finite t d f) =
    let n = scaled s c e f in
    let units = floor_units n (pos_part (scaled t d f e)) in
    context_mul (num_digits units + num_digits d) (finite (ltb 0 (neg_part n)) units (pos 0))
      (finite t d f)
floor_step _ _ = err (value_error "a Fraction of a special value")

-- `Fraction(value) % Fraction(step) == 0`
unfoldable pub step_aligned : Decimal → Decimal → Bool
step_aligned (finite s c e) (finite t d f) =
    let n = scaled s c e f in (pos_part n + neg_part n) % pos_part (scaled t d f e) == 0
step_aligned _ _ = false
