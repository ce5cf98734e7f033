-- ===== src/PriceRange/Evidence.antt =====
-- `validate_price_range_evidence` and `validate_reference_price_evidence` of src/paper_broker.py:
-- `none` is a valid piece of evidence, `some message` the first fault found. The conversion
-- `pd.Timedelta(minutes=x)` to nanoseconds is pandas' and a parameter.
use text.Mathlib.Text.{◌==◌ as str_eq}
use hermes_crypto_lab.Base.{
  ℕ, ◌-◌, String, Option, none, some, Bool, true, false, ◌||◌, not, ltb, if◌then◌else◌, is_some,
  List, [], ◌∷◌, any_of,
}
use hermes_crypto_lab.Decimal.{Decimal, is_finite, dec_leb, dec_zero}
use hermes_crypto_lab.Float.{FloatOps, Number, as_real, f_zero}
use hermes_crypto_lab.Time.{Timestamp, instant}
use hermes_crypto_lab.PriceRange.{
  RuleStatus, range_present, range_absent, rule_not_applicable, other_status, ReferenceSource,
  reference_price, other_source, RuleReferencePrice, PriceRangeRuleEvidence, unbounded, is_true,
}

-- `if condition: return message`, and what follows.
abbrev pub check : Bool → String → Option String → Option String
check fault message rest = if fault then some message else rest

-- The argument as a duration, or `none` where the source returns its first message: a Boolean, no
-- real number, not finite, or not positive.
abbrev pub positive_minutes : (fl : FloatOps) → (fl.F → ℕ) → Option fl.F → Option ℕ
positive_minutes fl timedelta none = none
positive_minutes fl timedelta (some x) =
    if not (fl.isfinite x) || fl.le x (f_zero fl) then none else some (timedelta x)

unfoldable pub max_age_of : (fl : FloatOps) → (fl.F → ℕ) → Number fl.F → Option ℕ
max_age_of fl timedelta n = positive_minutes fl timedelta (as_real fl n)

abbrev pub all_multipliers : PriceRangeRuleEvidence → List (Option Decimal)
all_multipliers rule =
    rule.bid_limit_mult_up ∷ rule.bid_limit_mult_down ∷ rule.ask_limit_mult_up
    ∷ rule.ask_limit_mult_down ∷ []

abbrev pub is_false : Option Bool → Bool
is_false (some b) = not b
is_false none = false

-- `not isinstance(symbol, str) or not symbol`
abbrev pub no_text : Option String → Bool
no_text none = true
no_text (some s) = str_eq s ""

-- The checks on the status and on what goes with it.
unfoldable pub shape_error : RuleStatus → PriceRangeRuleEvidence → Option String
shape_error range_present rule =
    check (not (is_true rule.price_range_present) || no_text rule.native_symbol)
      "Invalid data: PRICE_RANGE evidence"
      (check (any_of unbounded (all_multipliers rule)) "Invalid data: PRICE_RANGE multiplier" none)
shape_error range_absent rule =
    check (not (is_false rule.price_range_present) || any_of is_some (all_multipliers rule))
      "Invalid data: PRICE_RANGE absence evidence" none
shape_error (other_status s) rule = some "Invalid data: executionRules acquisition status"
shape_error _ rule =
    check (is_some rule.price_range_present || any_of is_some (all_multipliers rule))
      "Invalid data: incompatible executionRules evidence" none

-- The check of the source's own time, at the instants `acquired <= current`.
abbrev pub source_error : ℕ → ℕ → ℕ → Option Timestamp → Option String
source_error age current acquired none =
    check (ltb age (current - acquired)) "Stale data: executionRules acquisition timestamp" none
source_error age current acquired (some stamp) = elim (instant stamp) [
  | none ↦ some "Invalid data: executionRules source timestamp"
  | some source ↦
      check (ltb acquired source || ltb current source)
        "Invalid data: executionRules source timestamp"
        (check (ltb age (current - source)) "Stale data: executionRules source timestamp" none)
]

abbrev pub acquired_error : ℕ → Option ℕ → Option ℕ → Option Timestamp → Option String
acquired_error age none acquired source = some "Invalid data: executionRules validation timestamp"
acquired_error age (some current) none source =
    some "Invalid data: executionRules acquisition timestamp"
acquired_error age (some current) (some acquired) source =
    check (ltb current acquired) "Invalid data: executionRules acquisition timestamp"
      (source_error age current acquired source)

abbrev pub timing_error : ℕ → Timestamp → Option Timestamp → Option Timestamp → Option String
timing_error age now none source = some "Invalid data: executionRules acquisition timestamp missing"
timing_error age now (some stamp) source = acquired_error age (instant now) (instant stamp) source

-- A rule that does not apply carries no times.
unfoldable pub freshness_error : ℕ → Timestamp → RuleStatus → PriceRangeRuleEvidence → Option String
freshness_error age now rule_not_applicable rule =
    check (is_some rule.source_timestamp || is_some rule.acquired_at)
      "Invalid data: inapplicable executionRules timing" none
freshness_error age now _ rule = timing_error age now rule.acquired_at rule.source_timestamp

-- The first message, if there is one, and otherwise what follows.
abbrev pub first_error : Option String → Option String → Option String
first_error none rest = rest
first_error (some message) rest = some message

abbrev pub price_range_error : Option ℕ → PriceRangeRuleEvidence → Timestamp → Option String
price_range_error none rule now = some "Invalid data: executionRules maximum age"
price_range_error (some age) rule now =
    first_error (shape_error rule.status rule) (freshness_error age now rule.status rule)

unfoldable pub validate_price_range_evidence :
    (fl : FloatOps) → (fl.F → ℕ) → PriceRangeRuleEvidence → Timestamp → Number fl.F → Option String
validate_price_range_evidence fl timedelta rule now max_age_minutes =
    price_range_error (max_age_of fl timedelta max_age_minutes) rule now

-- `not price.is_finite() or price <= 0`, for a price that is there
abbrev pub bad_price : Option Decimal → Bool
bad_price none = true
bad_price (some p) = not (is_finite p) || dec_leb p dec_zero

abbrev pub reference_stamp_error : ℕ → ℕ → ℕ → Option Timestamp → Option String
reference_stamp_error age now acquired none = some "Invalid data: reference price timestamp missing"
reference_stamp_error age now acquired (some stamp) = elim (instant stamp) [
  | none ↦ some "Invalid data: reference price timestamp"
  | some t ↦ check (ltb now t || ltb acquired t) "Invalid data: future reference price timestamp" (
      check (ltb age (now - t) || ltb age (acquired - t)) "Stale data: reference price timestamp"
        none)
]

abbrev pub reference_acquired_error :
    ℕ → ℕ → Option Decimal → Option Timestamp → Option Timestamp → Option String
reference_acquired_error age now price timestamp none =
    some "Invalid data: reference price acquisition timestamp missing"
reference_acquired_error age now price timestamp (some stamp) = elim (instant stamp) [
  | none ↦ some "Invalid data: reference price acquisition timestamp"
  | some acquired ↦
      check (ltb now acquired) "Invalid data: future reference price acquisition timestamp" (
        check (bad_price price) "Invalid data: reference price"
          (reference_stamp_error age now acquired timestamp))
]

abbrev pub reference_source_error : ℕ → ℕ → ReferenceSource → RuleReferencePrice → Option String
reference_source_error age now (other_source s) r =
    check (is_some r.timestamp || is_some r.acquired_at)
      "Invalid data: incompatible reference price timing" none
reference_source_error age now reference_price r =
    reference_acquired_error age now r.price r.timestamp r.acquired_at

abbrev pub reference_error : Option ℕ → RuleReferencePrice → ℕ → Option String
reference_error none r now = some "Invalid data: reference price maximum age"
reference_error (some age) r now = reference_source_error age now r.source r

-- `now` is an instant: the callers pass a time that `_utc` has converted.
unfoldable pub validate_reference_price_evidence :
    (fl : FloatOps) → (fl.F → ℕ) → RuleReferencePrice → ℕ → Number fl.F → Option String
validate_reference_price_evidence fl timedelta reference now max_age_minutes =
    reference_error (max_age_of fl timedelta max_age_minutes) reference now
