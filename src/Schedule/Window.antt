-- ===== src/Schedule/Window.antt =====
-- Where the window and its target lie, and that the persisted start of a window determines them.
use hermes_crypto_lab.Base.{
  ℕ, ◌+◌, ◌*◌, ◌%◌, ◌-◌, ◌≤◌, ◌<◌, ◌≡◌, ◌↔◌, refl, sym, ◌∙◌, arith, some, ok,
}
use hermes_crypto_lab.Time.{aware, minute_ns, hour_ns, normalize, weekday}
use hermes_crypto_lab.Schedule.{
  ScheduleConfig, target_offset_minutes, schedule_timestamps, schedule_target_from_start,
  schedule_window_end, scheduled_key,
}

-- What `PaperConfig` accepts of a schedule.
pub record IsSchedule (c : ScheduleConfig) : Type 0 where
  pub weekday_in : c.schedule_weekday ≤ 6
  pub hour_in : c.schedule_hour ≤ 23
  pub minute_in : c.schedule_minute ≤ 59
  pub target_in : c.execution_target_minute ≤ 59
  pub window_in : (1 ≤ c.schedule_window_minutes) × (c.schedule_window_minutes ≤ 60)

abbrev pub start_of : ScheduleConfig → ℕ → ℕ
start_of c t = normalize t + c.schedule_hour * hour_ns + c.schedule_minute * minute_ns

module _ (c : ScheduleConfig) (valid : IsSchedule c) where
  -- The start of the window on the day of the window's start is that start.
  start_of_idem : (t : ℕ) → start_of c (start_of c t) ≡ start_of c t
  unfolding normalize
  start_of_idem t = omega (arith, valid.hour_in, valid.minute_in)

  -- The offset of the target is below an hour, and leads from the minute of the start to the
  -- target's minute of the hour.
  pub target_offset_minutes_lem :
      (d : ℕ) × (target_offset_minutes c.schedule_minute c.execution_target_minute ≡ ok d)
      × (d < 60)
      × ((c.schedule_minute + d) % 60 ≡ c.execution_target_minute)
  unfolding target_offset_minutes
  target_offset_minutes_lem = (
    (c.execution_target_minute + 60 - c.schedule_minute) % 60,
    ground arith,
    omega arith,
    omega arith,
  )

  abbrev pub offset : ℕ
  offset = target_offset_minutes_lem.0

  abbrev pub window_of : ℕ → ℕ × ℕ × ℕ
  window_of t = (
    start_of c t,
    start_of c t + offset * minute_ns,
    start_of c t + c.schedule_window_minutes * minute_ns,
  )

  pub schedule_timestamps-eq : (t : ℕ) → schedule_timestamps c (aware t) ≡ ok (window_of t)
  unfolding schedule_timestamps
  schedule_timestamps-eq t = rw target_offset_minutes_lem.1 refl

  -- With a schedule in range, a window is named by its start: from the start that
  -- `schedule_timestamps` gives for any instant, the persisted identity, its target and its end are
  -- found again.
  pub schedule_from_start :
      (t : ℕ) {start target end : ℕ}
      → schedule_timestamps c (aware t) ≡ ok (start, target, end)
      → (schedule_target_from_start c (aware start) ≡ ok target)
        × (schedule_window_end c (aware start) ≡ ok end)
  unfolding schedule_target_from_start schedule_window_end
  schedule_from_start t {start} {target} {end} h =
      let same : ok (window_of t) ≡ ok (start, target, end) = sym (schedule_timestamps-eq t) ∙ h in
      let at_start : start ≡ start_of c t = ground arith in
      let fixed : start_of c start ≡ start = rw at_start (start_of_idem t) in
      rw (schedule_timestamps-eq start) (ground arith, ground arith)

  -- With a schedule in range, an instant has a key exactly on the weekday of the schedule and inside the window of its day,
  -- and the key is the start of that window.
  pub scheduled_key_iff :
      (now key : ℕ)
      → (scheduled_key c now ≡ ok (some key)) ↔ (
          (weekday now ≡ c.schedule_weekday)
          × (key ≡ start_of c now)
          × (key ≤ now)
          × (now ≤ key + c.schedule_window_minutes * minute_ns))
  unfolding scheduled_key
  scheduled_key_iff now key = rw (schedule_timestamps-eq now) (λ h. ground arith, λ h. ground arith)
