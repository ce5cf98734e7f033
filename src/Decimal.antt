-- ===== src/Decimal.antt =====
-- Python's `decimal.Decimal` as src/execution_rule_decimal.py and src/paper_broker.py use it:
-- a sign, a coefficient and an exponent, the exact order of finite values, and multiplication in
-- a context of a given precision (`Context._fix` with the default Emax, Emin and rounding).
-- `special` stands for the infinities and the NaNs; the modelled code compares only values that
-- it has tested by `is_finite`, so the order is given on those.
pub mod Digits
pub mod Context
pub mod Exact
pub mod Order
use hermes_crypto_lab.Base.{
  ℕ, ◌+◌, ◌*◌, ◌/◌, ◌%◌, ◌^◌, Bool, true, false, ◌&&◌, not, ltb, leb, ◌==◌, if◌then◌else◌,
}
use hermes_crypto_lab.Base.Int.{ℤ, pos, pos_part, neg_part, signed, ◌+ℤ◌, ◌-ℤ◌, ltb_ℤ, leb_ℤ}
use Digits.{num_digits}

pub data Decimal : Type 0 where
  -- sign (true for minus), coefficient, exponent
  finite : Bool → ℕ → ℤ → Decimal
  special : Decimal

unfoldable pub is_finite : Decimal → Bool
is_finite (finite s c e) = true
is_finite special = false

-- Numerators of two values over the power of ten that both exponents share.
abbrev pub scaled : Bool → ℕ → ℤ → ℤ → ℤ
scaled s c e other = signed s (c * 10 ^ (pos_part e + neg_part other))

unfoldable pub dec_ltb : Decimal → Decimal → Bool
dec_ltb (finite s c e) (finite t d f) = ltb_ℤ (scaled s c e f) (scaled t d f e)
dec_ltb _ _ = false

unfoldable pub dec_leb : Decimal → Decimal → Bool
dec_leb (finite s c e) (finite t d f) = leb_ℤ (scaled s c e f) (scaled t d f e)
dec_leb _ _ = false

abbrev pub dec_zero : Decimal
dec_zero = finite false 0 (pos 0)

-- `value.adjusted()`: the exponent of the leading digit.
unfoldable pub adjusted : Decimal → ℤ
adjusted (finite s c e) = e +ℤ pos (num_digits c) -ℤ pos 1
adjusted special = pos 0

abbrev pub max_execution_rule_decimal_abs_adjusted_exponent : ℕ
max_execution_rule_decimal_abs_adjusted_exponent = 1000

-- `abs(exponent)`
abbrev pub magnitude : ℤ → ℕ
magnitude e = pos_part e + neg_part e

unfoldable pub is_bounded_execution_rule_decimal : Decimal → Bool
unfolding is_finite dec_ltb adjusted
is_bounded_execution_rule_decimal value =
    is_finite value
    && dec_ltb dec_zero value
    && leb (magnitude (adjusted value)) max_execution_rule_decimal_abs_adjusted_exponent
