-- ===== src/PriceRange/Freshness.antt =====
-- `validate_price_range_evidence` of src/paper_broker.py: evidence that fits its status and is fresh.
use hermes_crypto_lab.Base.{
  ℕ, ◌-◌, ◌≤◌, ◌≡◌, ◌↔◌, String, Option, none, some, Bool, true, false, arith, any_of, is_some, not,
  ◌||◌,
}
use hermes_crypto_lab.Float.{FloatOps, Number}
use hermes_crypto_lab.Time.{Timestamp, aware}
use hermes_crypto_lab.PriceRange.{
  RuleStatus, range_present, range_absent, rule_not_applicable, other_status,
  PriceRangeRuleEvidence, unbounded, is_true,
}
use hermes_crypto_lab.PriceRange.Evidence.{
  check, max_age_of, all_multipliers, no_text, shape_error, timing_error, freshness_error,
  first_error, validate_price_range_evidence,
}

-- Acquired at or before now, and no older than `age`; where the source gives its own time, that
-- lies at or before the acquisition and is no older than `age`.
abbrev pub IsFresh : ℕ → Timestamp → Option Timestamp → Option Timestamp → Type 0
IsFresh age (aware now) (some (aware acquired)) none = (acquired ≤ now) × (now - acquired ≤ age)
IsFresh age (aware now) (some (aware acquired)) (some (aware source)) =
    (source ≤ acquired) × (acquired ≤ now) × (now - source ≤ age)
IsFresh _ _ _ _ = ⊥

-- What goes with each status.
abbrev pub FitsStatus : RuleStatus → PriceRangeRuleEvidence → Type 0
FitsStatus range_present rule =
    (rule.price_range_present ≡ some true)
    × (no_text rule.native_symbol ≡ false)
    × (any_of unbounded (all_multipliers rule) ≡ false)
FitsStatus range_absent rule =
    (rule.price_range_present ≡ some false) × (any_of is_some (all_multipliers rule) ≡ false)
FitsStatus (other_status s) rule = ⊥
FitsStatus _ rule =
    (rule.price_range_present ≡ none) × (any_of is_some (all_multipliers rule) ≡ false)

abbrev pub FitsTime : ℕ → Timestamp → RuleStatus → PriceRangeRuleEvidence → Type 0
FitsTime age now rule_not_applicable rule =
    (rule.source_timestamp ≡ none) × (rule.acquired_at ≡ none)
FitsTime age now _ rule = IsFresh age now rule.acquired_at rule.source_timestamp

present_iff :
    (p : Option Bool) (nameless unfit : Bool) (m m' : String)
    → (check (not (is_true p) || nameless) m (check unfit m' none) ≡ none)
      ↔ ((p ≡ some true) × (nameless ≡ false) × (unfit ≡ false))
present_iff p nameless unfit m m' = (λ h. ground arith, λ h. ground arith)

shape_iff :
    (status : RuleStatus) (rule : PriceRangeRuleEvidence)
    → (shape_error status rule ≡ none) ↔ FitsStatus status rule
unfolding shape_error
shape_iff range_present rule =
    present_iff rule.price_range_present (no_text rule.native_symbol)
      (any_of unbounded (all_multipliers rule)) _ _
shape_iff range_absent rule = (λ h. ground arith, λ h. ground arith)
shape_iff _ rule = (λ h. ground arith, λ h. ground arith)

timing_iff :
    (age : ℕ) (now : Timestamp) (acquired source : Option Timestamp)
    → (timing_error age now acquired source ≡ none) ↔ IsFresh age now acquired source
timing_iff age (aware now) (some (aware acquired)) none = (λ h. ground arith, λ h. ground arith)
timing_iff age (aware now) (some (aware acquired)) (some (aware source)) =
    (λ h. ground arith, λ h. ground arith)
timing_iff age _ _ _ = (λ h. absurd (ground arith), λ h. absurd h)

freshness_iff :
    (age : ℕ) (now : Timestamp) (status : RuleStatus) (rule : PriceRangeRuleEvidence)
    → (freshness_error age now status rule ≡ none) ↔ FitsTime age now status rule
unfolding freshness_error
freshness_iff age now rule_not_applicable rule = (λ h. ground arith, λ h. ground arith)
freshness_iff age now _ rule = timing_iff age now rule.acquired_at rule.source_timestamp

first_error_iff : (a b : Option String) → (first_error a b ≡ none) ↔ ((a ≡ none) × (b ≡ none))
first_error_iff a b = (λ h. ground arith, λ h. ground arith)

module _ (fl : FloatOps) (timedelta : fl.F → ℕ) (minutes : Number fl.F) where
  -- With a valid maximum age, `validate_price_range_evidence` answers None exactly for evidence that
  -- fits its status and, unless the rule does not apply, was acquired no later than now and is no
  -- older than the maximum age, by the source's own time where there is one, which is no later
  -- than the acquisition; evidence of a rule that does not apply has no times.
  pub validate_price_range_evidence_iff :
      {age : ℕ} (rule : PriceRangeRuleEvidence) (now : Timestamp)
      → max_age_of fl timedelta minutes ≡ some age
      → (validate_price_range_evidence fl timedelta rule now minutes ≡ none)
        ↔ (FitsStatus rule.status rule × FitsTime age now rule.status rule)
  unfolding validate_price_range_evidence
  validate_price_range_evidence_iff {age} rule now valid =
      let parts =
        first_error_iff (shape_error rule.status rule) (freshness_error age now rule.status rule) in
      let shape = shape_iff rule.status rule in
      let times = freshness_iff age now rule.status rule in
      rw valid (
        λ h. (shape.0 (parts.0 h).0, times.0 (parts.0 h).1),
        λ h. parts.1 (shape.1 h.0, times.1 h.1),
      )
