-- ===== src/Tests/Rules.antt =====
-- The PRICE_RANGE rule, its evidence, the schedule and the floor, on concrete inputs.
use hermes_crypto_lab.Base.{
  ℕ, ◌+◌, ◌*◌, ◌≡◌, refl, ◌⊎◌, ◌↔◌, arith, none, some, true, false, ok, err, value_error,
}
use hermes_crypto_lab.Base.Int.{ℤ, pos, negsuc, ◌+ℤ◌, ◌-ℤ◌}
use hermes_crypto_lab.Decimal.{
  Decimal, finite, is_finite, dec_leb, dec_ltb, adjusted, is_bounded_execution_rule_decimal,
}
use hermes_crypto_lab.Decimal.Digits.{num_digits}
use hermes_crypto_lab.Decimal.Context.{fix, context_mul, digit_count}
use hermes_crypto_lab.Decimal.Order.{◌≤ᴰ◌}
use hermes_crypto_lab.Decimal.Exact.{IsBounded}
use hermes_crypto_lab.Float.{floating}
use hermes_crypto_lab.Time.{aware, day_ns, hour_ns, minute_ns, normalize}
use hermes_crypto_lab.PriceRange
use hermes_crypto_lab.PriceRange.{
  exact_decimal_product, evaluate_reference, evaluate_price_range_rule, PriceRangeDecision,
  accepted, rejected, range_present, usable_reference, multipliers, decision, RuleReferencePrice,
  reference_price,
}
use hermes_crypto_lab.PriceRange.Bounds.{InRange, AreOrdered, accepted_sound, evaluate_decides}
use hermes_crypto_lab.PriceRange.Evidence.{validate_price_range_evidence, max_age_of}
use hermes_crypto_lab.PriceRange.Freshness.{FitsStatus, FitsTime, validate_price_range_evidence_iff}
use hermes_crypto_lab.Quantity.Steps.{floor_step}
use hermes_crypto_lab.Quantity.Floor.{floor_step_exact}
use hermes_crypto_lab.Schedule.{
  ScheduleConfig, target_offset_minutes, schedule_timestamps, schedule_target_from_start,
  schedule_window_end,
}
use hermes_crypto_lab.Schedule.Window.{IsSchedule, schedule_from_start}
use hermes_crypto_lab.Tests.Fixed.{fixed}
use hermes_crypto_lab.Tests.Market.{btc_reference, btc_evidence}

abbrev hundred : Decimal
hundred = finite false 100 (pos 0)

abbrev four_fifths : Decimal
four_fifths = finite false 8 (negsuc 0)

-- 101.5
abbrev price : Decimal
price = finite false 1_015 (negsuc 0)

abbrev verdict : PriceRangeDecision
verdict =
    decision accepted none (some (finite false 800 (negsuc 0)))
      (some (finite false 1_200 (negsuc 0)))

evaluated :
    evaluate_price_range_rule btc_evidence (some btc_reference) PriceRange.buy price ≡ ok verdict
unfolding evaluate_price_range_rule evaluate_reference exact_decimal_product context_mul digit_count
    fix num_digits is_finite dec_leb dec_ltb adjusted is_bounded_execution_rule_decimal ◌+ℤ◌ ◌-ℤ◌
evaluated = refl

accepted_sound_example :
    (btc_evidence.status ≡ range_present)
    × (btc_evidence.price_range_present ≡ some true)
    × ((ref : Decimal) × (usable_reference (some btc_reference) ≡ some ref)
        × InRange ref price (multipliers btc_evidence PriceRange.buy))
accepted_sound_example =
    accepted_sound btc_evidence (some btc_reference) PriceRange.buy price verdict evaluated refl

bounded_hundred : is_bounded_execution_rule_decimal hundred ≡ true
unfolding is_bounded_execution_rule_decimal adjusted num_digits dec_ltb is_finite ◌+ℤ◌ ◌-ℤ◌
bounded_hundred = refl

bounded_down : is_bounded_execution_rule_decimal four_fifths ≡ true
unfolding is_bounded_execution_rule_decimal adjusted num_digits dec_ltb is_finite ◌+ℤ◌ ◌-ℤ◌
bounded_down = refl

evaluate_decides_example :
    (¬ AreOrdered hundred (multipliers btc_evidence PriceRange.buy)
      × (evaluate_price_range_rule btc_evidence (some btc_reference) PriceRange.buy price
          ≡ err (value_error "PRICE_RANGE bounds are inverted")))
    ⊎ ((d : PriceRangeDecision) × AreOrdered hundred (multipliers btc_evidence PriceRange.buy)
        × (evaluate_price_range_rule btc_evidence (some btc_reference) PriceRange.buy price ≡ ok d)
        × ((d.outcome ≡ accepted) ⊎ (d.outcome ≡ rejected))
        × ((d.outcome ≡ accepted)
            ↔ InRange hundred price (multipliers btc_evidence PriceRange.buy)))
unfolding is_bounded_execution_rule_decimal adjusted num_digits dec_ltb dec_leb is_finite ◌+ℤ◌ ◌-ℤ◌
evaluate_decides_example =
    evaluate_decides btc_evidence btc_reference PriceRange.buy price hundred refl refl refl refl
      refl refl refl refl refl

-- Five minutes.
abbrev timedelta : ℤ → ℕ
timedelta x = 300_000_000_000

validate_price_range_evidence_iff_example :
    (validate_price_range_evidence fixed timedelta btc_evidence
        (aware 2_000_000_000)
        (floating (pos 50_000))
      ≡ none)
    ↔ (FitsStatus range_present btc_evidence
        × FitsTime 300_000_000_000 (aware 2_000_000_000) range_present btc_evidence)
unfolding max_age_of dec_leb
validate_price_range_evidence_iff_example =
    validate_price_range_evidence_iff fixed timedelta (floating (pos 50_000)) btc_evidence
      (aware 2_000_000_000) refl

-- 1.2345 floored to 0.01
value-IsBounded : IsBounded 12_345 (negsuc 3)
unfolding num_digits ◌+ℤ◌
value-IsBounded = record { positive = ground arith; above = ground arith; below = ground arith }

step-IsBounded : IsBounded 1 (negsuc 1)
unfolding num_digits ◌+ℤ◌
step-IsBounded = record { positive = ground arith; above = ground arith; below = ground arith }

floor_step_exact_example :
    (floor_step (finite false 12_345 (negsuc 3)) (finite false 1 (negsuc 1))
      ≡ ok (finite false 123 (negsuc 1)))
    × (finite false 123 (negsuc 1) ≤ᴰ finite false 12_345 (negsuc 3))
    × ¬ (finite false 124 (negsuc 1) ≤ᴰ finite false 12_345 (negsuc 3))
floor_step_exact_example =
    floor_step_exact 12_345 1 (negsuc 3) (negsuc 1) value-IsBounded step-IsBounded

-- Fridays from 10:30 to 11:30, to be executed at 10:45.
abbrev fridays : ScheduleConfig
fridays = record {
  schedule_weekday = 4;
  schedule_hour = 10;
  schedule_minute = 30;
  execution_target_minute = 45;
  schedule_window_minutes = 60;
}

fridays_valid : IsSchedule fridays
fridays_valid = record {
  weekday_in = ground arith;
  hour_in = ground arith;
  minute_in = ground arith;
  target_in = ground arith;
  window_in = ground arith;
}

-- 10:50 on a Friday, and the start, the target and the end of its window.
abbrev now : ℕ
now = 4 * day_ns + 10 * hour_ns + 50 * minute_ns

abbrev start : ℕ
start = 4 * day_ns + 10 * hour_ns + 30 * minute_ns

abbrev target : ℕ
target = 4 * day_ns + 10 * hour_ns + 45 * minute_ns

abbrev end : ℕ
end = 4 * day_ns + 11 * hour_ns + 30 * minute_ns

window_now : schedule_timestamps fridays (aware now) ≡ ok (start, target, end)
unfolding schedule_timestamps target_offset_minutes normalize
window_now = refl

schedule_from_start_example :
    (schedule_target_from_start fridays (aware start) ≡ ok target)
    × (schedule_window_end fridays (aware start) ≡ ok end)
schedule_from_start_example = schedule_from_start fridays fridays_valid now window_now
