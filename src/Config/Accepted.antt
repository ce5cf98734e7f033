-- ===== src/Config/Accepted.antt =====
-- What the rest of the program may rely on in a `PaperConfig` that was accepted.
use hermes_crypto_lab.Base.{
  ℕ, ◌≤◌, ◌<◌, ◌+◌, ◌*◌, ◌%◌, ◌≡◌, sym, ◌∙◌, ok_eq, String, false, not, ◌&&◌, [], ◌∷◌, arith, ok,
  >>=-eq-ok,
}
use hermes_crypto_lab.Float.{FloatOps, Number, integer}
use hermes_crypto_lab.Time.{aware, minute_ns, hour_ns, normalize}
use hermes_crypto_lab.Schedule.{target_offset_minutes, schedule_timestamps}
use hermes_crypto_lab.Schedule.Window.{
  IsSchedule, start_of, target_offset_minutes_lem, schedule_timestamps-eq,
}
use hermes_crypto_lab.Strategy.{count_of}
use hermes_crypto_lab.Config.{
  PaperConfig, outside, schedule_of, flag_of, check_rates, check_schedule, check_limits,
  check_config,
}

count_in :
    {F : Type 0} (low high : ℕ) (n : Number F)
    → outside low high n ≡ false
    → (low ≤ count_of n) × (count_of n ≤ high)
unfolding outside
count_in low high (integer n) h = ground arith
count_in low high _ h = absurd (ground arith)

module _ (fl : FloatOps) (strip : String → String) (c : PaperConfig fl.F) where
  parts :
      check_config fl strip c ≡ ok tt
      → (check_rates fl strip (c.fee_rate ∷ c.minimum_spread_rate ∷ c.slippage_rate ∷ []) ≡ ok tt)
        × (check_schedule fl strip c ≡ ok tt)
        × (check_limits fl strip c ≡ ok tt)
        × (flag_of c.require_execution_rule_evidence && not (flag_of c.require_exchange_rules)
            ≡ false)
  unfolding check_config
  parts h = ground arith

  schedule_parts :
      check_schedule fl strip c ≡ ok tt
      → (outside 0 6 c.schedule_weekday ≡ false)
        × (outside 0 23 c.schedule_hour ≡ false)
        × (outside 0 59 c.schedule_minute ≡ false)
        × (outside 0 59 c.execution_target_minute ≡ false)
        × (outside 1 60 c.schedule_window_minutes ≡ false)
  unfolding check_schedule
  schedule_parts h = ground arith

  -- The schedule of an accepted configuration has its weekday, hour, minutes and window in range.
  pub schedule_of-IsSchedule : check_config fl strip c ≡ ok tt → IsSchedule (schedule_of c)
  schedule_of-IsSchedule h =
      let (weekday, hour, minute, target, window) = schedule_parts (parts h).1 in
      record {
        weekday_in = (count_in 0 6 _ weekday).1;
        hour_in = (count_in 0 23 _ hour).1;
        minute_in = (count_in 0 59 _ minute).1;
        target_in = (count_in 0 59 _ target).1;
        window_in = count_in 1 60 _ window;
      }

  offset_part :
      check_schedule fl strip c ≡ ok tt
      → (d : ℕ) × (target_offset_minutes
            (count_of c.schedule_minute)
            (count_of c.execution_target_minute)
          ≡ ok d)
        × (d ≤ count_of c.schedule_window_minutes)
  unfolding check_schedule
  offset_part h =
      let (weekday, hour, minute, target, window) = schedule_parts h in
      let (d, offset, checked) =
        >>=-eq-ok
          (target_offset_minutes (count_of c.schedule_minute) (count_of c.execution_target_minute))
          _ (rw (weekday, hour, minute, target, window) at h) in
      (d, offset, ground arith)

  -- With an accepted configuration, `schedule_timestamps` gives a window for every instant: it is not empty and
  -- at most an hour long, and the execution target lies in it, at the configured minute of the hour.
  pub check_config-schedules :
      (now : ℕ)
      → check_config fl strip c ≡ ok tt
      → (start : ℕ) × (target : ℕ) × (end : ℕ) × (schedule_timestamps (schedule_of c) (aware now)
          ≡ ok (start, target, end))
        × (start ≤ target)
        × (target ≤ end)
        × (start < end)
        × (end ≤ start + hour_ns)
        × (target % hour_ns ≡ count_of c.execution_target_minute * minute_ns)
  unfolding normalize
  check_config-schedules now h =
      let valid = schedule_of-IsSchedule h in
      let (d, found, within) = offset_part (parts h).1 in
      let (d', own, small, at_minute) = target_offset_minutes_lem (schedule_of c) valid in
      let same : d' ≡ d = ok_eq d' d (sym own ∙ found) in
      let start = start_of (schedule_of c) now in
      (
        start,
        start + d' * minute_ns,
        start + count_of c.schedule_window_minutes * minute_ns,
        schedule_timestamps-eq (schedule_of c) valid now,
        omega arith,
        omega (arith, same, within),
        omega (arith, valid.window_in),
        omega (arith, valid.window_in),
        omega (arith, at_minute),
      )
