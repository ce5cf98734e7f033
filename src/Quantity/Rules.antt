-- ===== src/Quantity/Rules.antt =====
-- `SymbolRules` of src/paper_broker.py, the limits in force, and the tests on a limit that may be
-- missing.
use hermes_crypto_lab.Base.{
  ℕ, String, Option, none, some, Bool, false, ◌&&◌, ◌||◌, not, if◌then◌else◌, List, [], ◌∷◌,
}
use hermes_crypto_lab.Decimal.{Decimal, is_finite, dec_ltb, dec_zero}

pub record SymbolRules (F : Type 0) : Type 0 where
  pub active : Bool
  pub min_quantity : F
  pub max_quantity : Option F
  pub step_size : F
  pub min_notional : F
  pub market_order_allowed : Bool
  pub market_min_quantity : Option F
  pub market_max_quantity : Option F
  pub market_step_size : Option F
  pub min_notional_applies_to_market : Bool
  pub min_notional_avg_price_mins : ℕ
  pub notional_min : Option F
  pub notional_max : Option F
  pub notional_min_applies_to_market : Bool
  pub notional_max_applies_to_market : Bool
  pub notional_avg_price_mins : ℕ
  pub raw_min_quantity : Option Decimal
  pub raw_max_quantity : Option Decimal
  pub raw_step_size : Option Decimal
  pub raw_market_min_quantity : Option Decimal
  pub raw_market_max_quantity : Option Decimal
  pub raw_market_step_size : Option Decimal
  pub raw_min_notional : Option Decimal
  pub raw_notional_min : Option Decimal
  pub raw_notional_max : Option Decimal

-- The argument `rule_reference_price: Decimal | float | None`.
pub data ReferenceArgument (F : Type 0) : Type 0 where
  decimal_price : Decimal → ReferenceArgument F
  float_price : F → ReferenceArgument F
  no_price : ReferenceArgument F

-- The pair that the source returns: (quantity, None) or (None, reason).
pub data Normalized (F : Type 0) : Type 0 where
  executable : F → Normalized F
  refused : String → Normalized F

abbrev pub finite_or_none : Decimal → Option Decimal
finite_or_none d = if is_finite d then some d else none

-- The limits in force: the exact value of exchangeInfo, or else the convenience float.
pub record Limits : Type 0 where
  pub min_quantity : Option Decimal
  pub max_quantity : Option Decimal
  pub step_size : Option Decimal
  pub market_min : Option Decimal
  pub market_max : Option Decimal
  pub market_step : Option Decimal
  pub min_notional : Option Decimal
  pub notional_min : Option Decimal
  pub notional_max : Option Decimal

-- `value is not None and value > 0`
abbrev pub is_set : Option Decimal → Bool
is_set none = false
is_set (some v) = dec_ltb dec_zero v

-- `value is not None and (not value.is_finite() or value < 0)`
abbrev pub malformed : Option Decimal → Bool
malformed none = false
malformed (some v) = not (is_finite v) || dec_ltb v dec_zero

-- `x < limit` and `x > limit`, for a limit that is there
abbrev pub under : Decimal → Option Decimal → Bool
under x none = false
under x (some limit) = dec_ltb x limit

abbrev pub over : Decimal → Option Decimal → Bool
over x none = false
over x (some limit) = dec_ltb limit x

-- `maximum < minimum`, both being set
abbrev pub crossed : Option Decimal → Option Decimal → Bool
crossed (some low) (some high) = dec_ltb dec_zero low && dec_ltb dec_zero high && dec_ltb high low
crossed _ _ = false

abbrev pub all_limits : Limits → List (Option Decimal)
all_limits l =
    l.min_quantity ∷ l.max_quantity ∷ l.step_size ∷ l.market_min ∷ l.market_max ∷ l.market_step
    ∷ l.min_notional ∷ l.notional_min ∷ l.notional_max ∷ []
