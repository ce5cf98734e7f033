-- ===== src/Tests/Fixed.antt =====
-- Test data: numbers with four decimals in place of floats, which are all
-- finite.
use hermes_crypto_lab.Base.{ℕ, suc, ◌+◌, ◌&&◌, ◌*◌, ◌/◌, ◌^◌, ◌≡◌, refl, true, false, if◌then◌else◌}
use hermes_crypto_lab.Base.Int.{ℤ, pos, negsuc, pos_part, neg_part, sub_ℕ, ◌+ℤ◌, ◌-ℤ◌, ltb_ℤ, leb_ℤ}
use hermes_crypto_lab.Decimal.{Decimal, finite, special, dec_leb, dec_zero, is_finite}
use hermes_crypto_lab.Float.{FloatOps}

abbrev units : Decimal → ℕ
units (finite s c (pos n)) = c * 10 ^ (n + 4)
units (finite s c (negsuc n)) = c * 10 ^ 4 / 10 ^ suc n
units special = 0

abbrev pub fixed_times : ℤ → ℤ → ℤ
fixed_times (pos a) (pos b) = pos (a * b / 10_000)
fixed_times (pos a) (negsuc b) = sub_ℕ 0 (a * suc b / 10_000)
fixed_times (negsuc a) (pos b) = sub_ℕ 0 (suc a * b / 10_000)
fixed_times (negsuc a) (negsuc b) = pos (suc a * suc b / 10_000)

abbrev pub fixed_over : ℤ → ℤ → ℤ
fixed_over (pos a) (pos b) = pos (a * 10_000 / b)
fixed_over (pos a) (negsuc b) = sub_ℕ 0 (a * 10_000 / suc b)
fixed_over (negsuc a) (pos b) = sub_ℕ 0 (suc a * 10_000 / b)
fixed_over (negsuc a) (negsuc b) = pos (suc a * 10_000 / suc b)

abbrev pub fixed_to_decimal : ℤ → Decimal
fixed_to_decimal (pos a) = finite false a (negsuc 3)
fixed_to_decimal (negsuc a) = finite true (suc a) (negsuc 3)

abbrev pub fixed_of_decimal : Decimal → ℤ
fixed_of_decimal d = if dec_leb dec_zero d then pos (units d) else sub_ℕ 0 (units d)

abbrev pub fixed : FloatOps
fixed = record {
  F = ℤ;
  isfinite = λ x. true;
  lt = ltb_ℤ;
  le = leb_ℤ;
  eq = λ x y. leb_ℤ x y && leb_ℤ y x;
  plus = λ x y. x +ℤ y;
  minus = λ x y. x -ℤ y;
  times = fixed_times;
  over = fixed_over;
  negate = λ x. pos 0 -ℤ x;
  absolute = λ x. pos (pos_part x + neg_part x);
  to_decimal = fixed_to_decimal;
  of_decimal = fixed_of_decimal;
}

pub finite_fixed : (x : ℤ) → is_finite (fixed_to_decimal x) ≡ true
unfolding is_finite
finite_fixed (pos a) = refl
finite_fixed (negsuc a) = refl
