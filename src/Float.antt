-- ===== src/Float.antt =====
-- Binary floating point, as a parameter of the model: the type `float` of the interpreter with the
-- operations that the sources apply to it. Nothing is assumed of these operations here; a theorem
-- that needs a law of IEEE arithmetic names it as a hypothesis.
use hermes_crypto_lab.Base.{Bool, Option, none, some, if◌then◌else◌, ◌+◌}
use hermes_crypto_lab.Base.Int.{ℤ, pos, pos_part, neg_part}
use hermes_crypto_lab.Decimal.{Decimal, finite, dec_zero}
use hermes_crypto_lab.Base.{false, ltb}

pub record FloatOps : Type 1 where
  pub F : Type 0
  -- `math.isfinite(x)`
  pub isfinite : F → Bool
  -- `x < y`, `x <= y`, `x == y`
  pub lt : F → F → Bool
  pub le : F → F → Bool
  pub eq : F → F → Bool
  -- `x + y`, `x - y`, `x * y`, `x / y`
  pub plus : F → F → F
  pub minus : F → F → F
  pub times : F → F → F
  pub over : F → F → F
  -- `-x` and `abs(x)`
  pub negate : F → F
  pub absolute : F → F
  -- `Decimal(str(x))`
  pub to_decimal : F → Decimal
  -- `float(d)`, which a literal in the source also is
  pub of_decimal : Decimal → F

module _ (fl : FloatOps) where
  open fl use {F, lt, of_decimal}

  -- `0.0` and `1.0`
  abbrev pub f_zero : F
  f_zero = of_decimal dec_zero

  abbrev pub f_one : F
  f_one = of_decimal (finite false 1 (pos 0))

  -- The builtins `max(a, b)` and `min(a, b)`: the first argument, unless the second is past it.
  abbrev pub f_max : F → F → F
  f_max a b = if lt a b then b else a

  abbrev pub f_min : F → F → F
  f_min a b = if lt b a then b else a

-- An argument that the source tests by `isinstance(value, bool)` and `isinstance(value, Real)`.
-- Integers stand within the range of a float, so that `float(value)` does not overflow.
pub data Number (F : Type 0) : Type 0 where
  boolean : Bool → Number F
  integer : ℤ → Number F
  floating : F → Number F
  not_real : Number F

-- The value as a float, if it is a real number and not a Boolean.
abbrev pub as_real : (fl : FloatOps) → Number fl.F → Option fl.F
as_real fl (boolean b) = none
as_real fl (integer n) =
    some (fl.of_decimal (finite (ltb (pos_part n) (neg_part n)) (pos_part n + neg_part n) (pos 0)))
as_real fl (floating x) = some x
as_real fl not_real = none
