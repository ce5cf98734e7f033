-- ===== src/Schedule.antt =====
-- src/schedule.py: the weekly window, its execution target and its end, and `_scheduled_key` of
-- src/paper_broker.py, which tells whether an instant lies in the window.
pub mod Window
use hermes_crypto_lab.Base.{
  ℕ, ◌+◌, ◌*◌, ◌%◌, ◌-◌, String, Option, none, some, Bool, true, false, ◌&&◌, ltb, leb, ◌==◌,
  if◌then◌else◌, not, Result, ok, err, value_error, ◌>>=◌, ◌>>◌, raise_if,
}
use hermes_crypto_lab.Time.{Timestamp, nat, naive, aware, minute_ns, hour_ns, normalize, weekday}

-- The fields of the protocol `ScheduleConfig`, and the weekday of `PaperConfig`. They are exact
-- integers and not negative, which `PaperConfig` checks before any use.
pub record ScheduleConfig : Type 0 where
  pub schedule_weekday : ℕ
  pub schedule_hour : ℕ
  pub schedule_minute : ℕ
  pub execution_target_minute : ℕ
  pub schedule_window_minutes : ℕ

-- `(target - schedule_minute) % 60`: Python's `%` is not negative, so 60 is added first.
unfoldable pub target_offset_minutes : ℕ → ℕ → Result ℕ
target_offset_minutes schedule_minute execution_target_minute = do
  raise_if (ltb 59 schedule_minute)
      (value_error "schedule_minute must be an exact integer in [0, 59]")
  raise_if (ltb 59 execution_target_minute)
      (value_error "execution_target_minute must be an exact integer in [0, 59]")
  ok ((execution_target_minute + 60 - schedule_minute) % 60)

-- `day.tz_convert("UTC")` after the test of its zone. pandas' `NaT` has no zone either.
abbrev pub zoned : Timestamp → String → Result ℕ
zoned (aware t) message = ok t
zoned _ message = err (value_error message)

-- start, target and end
unfoldable pub schedule_timestamps : ScheduleConfig → Timestamp → Result (ℕ × ℕ × ℕ)
schedule_timestamps config schedule_date = do
  t ← zoned schedule_date "Schedule date must be timezone-aware"
  let start = normalize t + config.schedule_hour * hour_ns + config.schedule_minute * minute_ns
  offset ← target_offset_minutes config.schedule_minute config.execution_target_minute
  ok (start, start + offset * minute_ns, start + config.schedule_window_minutes * minute_ns)

unfoldable pub schedule_target_from_start : ScheduleConfig → Timestamp → Result ℕ
schedule_target_from_start config schedule_start = do
  start ← zoned schedule_start "Schedule start must be timezone-aware"
  (expected_start, target, end) ← schedule_timestamps config (aware start)
  raise_if (not (start == expected_start))
      (value_error "Schedule start is inconsistent with configured schedule")
  ok target

unfoldable pub schedule_window_end : ScheduleConfig → Timestamp → Result ℕ
schedule_window_end config schedule_start = do
  start ← zoned schedule_start "Schedule start must be timezone-aware"
  (expected_start, target, end) ← schedule_timestamps config (aware start)
  raise_if (not (start == expected_start))
      (value_error "Schedule start is inconsistent with configured schedule")
  ok end

-- The start of the window that `now` lies in. The source returns its text in minutes, which names
-- it, since a start lies on a whole minute.
unfoldable pub scheduled_key : ScheduleConfig → ℕ → Result (Option ℕ)
scheduled_key config now = if not (weekday now == config.schedule_weekday) then ok none else do
  (scheduled, target, end) ← schedule_timestamps config (aware now)
  ok (if leb scheduled now && leb now end then some scheduled else none)
