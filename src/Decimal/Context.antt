-- ===== src/Decimal/Context.antt =====
-- Multiplication of decimals in a context: `Context._fix` of Python's decimal, with the default
-- Emax, Emin and half-even rounding, and `prec` digits. A result past Emax raises the trapped
-- signal `decimal.Overflow`.
use hermes_crypto_lab.Base.{
  ℕ, ◌+◌, ◌*◌, ◌/◌, ◌%◌, ◌^◌, Bool, true, false, ◌&&◌, ◌||◌, ltb, ◌==◌, if◌then◌else◌, Result, ok,
  err, decimal_overflow,
}
use hermes_crypto_lab.Base.Int.{ℤ, pos, negsuc, pos_part, ◌+ℤ◌, ◌-ℤ◌, ltb_ℤ, max_ℤ, min_ℤ}
use hermes_crypto_lab.Decimal.{Decimal, finite, special}
use hermes_crypto_lab.Decimal.Digits.{num_digits}

abbrev pub emax : ℤ
emax = pos 999_999

abbrev pub emin : ℤ
emin = negsuc 999_998

-- The quotient by a divisor, rounded to the nearest and on a tie to the even one.
unfoldable pub round_half_even : ℕ → ℕ → ℕ
round_half_even coeff divisor =
    let q = coeff / divisor in
    let twice = 2 * (coeff % divisor) in
    if ltb divisor twice || ((twice == divisor) && (q % 2 == 1)) then q + 1 else q

-- A coefficient that rounding carried to `prec + 1` digits loses its last digit.
abbrev pub carried : ℕ → Bool → ℕ → ℤ → Result Decimal
carried prec s coeff e =
    let (c, e') = if ltb prec (num_digits coeff) then (coeff / 10, e +ℤ pos 1) else (coeff, e) in
    if ltb_ℤ (emax -ℤ pos prec +ℤ pos 1) e' then err decimal_overflow else ok (finite s c e')

unfoldable pub fix : ℕ → Bool → ℕ → ℤ → Result Decimal
unfolding round_half_even
fix prec s coeff e =
    let etiny = emin -ℤ pos prec +ℤ pos 1 in
    let etop = emax -ℤ pos prec +ℤ pos 1 in
    let exp_min = e +ℤ pos (num_digits coeff) -ℤ pos prec in
    let low = max_ℤ exp_min etiny in
    if coeff == 0
    then ok (finite s 0 (min_ℤ (max_ℤ e etiny) emax))
    else if ltb_ℤ etop exp_min
    then err decimal_overflow
    else if ltb_ℤ e low
    then carried prec s (round_half_even coeff (10 ^ (pos_part (low -ℤ e)))) low
    else ok (finite s coeff e)

abbrev pub xor : Bool → Bool → Bool
xor true b = if b then false else true
xor false b = b

-- `left * right` under `context.prec = prec`. The modelled code multiplies finite values only.
unfoldable pub context_mul : ℕ → Decimal → Decimal → Result Decimal
context_mul prec (finite s c e) (finite t d f) = fix prec (xor s t) (c * d) (e +ℤ f)
context_mul prec _ _ = ok special

-- `len(value.as_tuple().digits)`
unfoldable pub digit_count : Decimal → ℕ
digit_count (finite s c e) = num_digits c
digit_count special = 0
