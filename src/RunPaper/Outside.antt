-- ===== src/RunPaper/Outside.antt =====
-- The weekly call of run_paper.py at an instant outside every window of the schedule.
use hermes_crypto_lab.Base.{
  ℕ, ◌+◌, ◌-◌, ◌*◌, ◌%◌, ◌≤◌, ◌<◌, ◌≡◌, ◌≢◌, refl, arith, String, none, true, false, ◌&&◌, ◌==◌,
  ltb, ok, ◌⊎◌, inl, inr, Bool-cases, ==_iff, not-ltb→le, lt→ltb, ltb→lt, if◌then◌else◌,
}
use hermes_crypto_lab.Time.{minute_ns, day_ns, normalize, weekday}
use hermes_crypto_lab.Float.{FloatOps}
use hermes_crypto_lab.Schedule.{ScheduleConfig, scheduled_key}
use hermes_crypto_lab.Schedule.Window.{
  IsSchedule, start_of, window_of, schedule_timestamps-eq, scheduled_key_iff,
}
use hermes_crypto_lab.State.{◌>>=◌, returned, lift, read}
use hermes_crypto_lab.PaperRun.{Setting}
use hermes_crypto_lab.Forward.{World}
use hermes_crypto_lab.Forward.Tables.{active_experiment_id, window_exists}
use hermes_crypto_lab.Forward.Rows.{Grows}
use hermes_crypto_lab.Forward.Missed.Filed.{IsFiled}
use hermes_crypto_lab.Forward.Missed.Closes.{record_missed_windows-closes}
use hermes_crypto_lab.RunPaper.{
  WeeklyCall, stopped, current_window_closed, latest_schedule_key, start_on, admit, weekly_call,
}

-- The window of a day ends on that day.
abbrev pub EndsInDay : ScheduleConfig → Type 0
EndsInDay c = c.schedule_hour * 60 + c.schedule_minute + c.schedule_window_minutes < 1440

normalize_idem : (t : ℕ) → normalize (normalize t) ≡ normalize t
unfolding normalize
normalize_idem t = omega arith

week_before :
    (c : ScheduleConfig) (valid : IsSchedule c) (now : ℕ)
    → weekday now ≡ c.schedule_weekday
    → EndsInDay c
    → 7 * day_ns ≤ normalize now
    → let t = normalize now - 7 * day_ns in
      (weekday t ≡ c.schedule_weekday)
      × (normalize now ≤ t + 7 * day_ns)
      × (start_of c t + c.schedule_window_minutes * minute_ns < now)
unfolding normalize weekday
week_before c valid now on in_day late = (omega arith, omega arith, omega arith)

days_before :
    (c : ScheduleConfig) (valid : IsSchedule c) (now : ℕ)
    → (weekday now == c.schedule_weekday) ≡ false
    → EndsInDay c
    → 7 * day_ns ≤ normalize now
    → let t = normalize now - (weekday now + 7 - c.schedule_weekday) % 7 * day_ns in
      (ltb now (start_of c t) ≡ false)
      × (weekday t ≡ c.schedule_weekday)
      × (normalize now ≤ t + 7 * day_ns)
      × (start_of c t + c.schedule_window_minutes * minute_ns < now)
unfolding normalize weekday
days_before c valid now off in_day late =
    (ground arith, omega (arith, valid.weekday_in), omega (arith, valid.weekday_in), ground arith)

module _ (c : ScheduleConfig) (valid : IsSchedule c) (in_day : EndsInDay c) (now : ℕ) where
  closed_at :
      current_window_closed c now
      ≡ ok (weekday now == c.schedule_weekday && ltb (window_of c valid now).2 now)
  unfolding current_window_closed
  closed_at = rw (schedule_timestamps-eq c valid now) refl

  start_on_eq : (t : ℕ) → start_on c t ≡ ok (start_of c t)
  start_on_eq t = rw (schedule_timestamps-eq c valid t) refl

  -- On the weekday of the schedule and not in the window, the instant lies before or after it.
  beside :
      scheduled_key c now ≡ ok none
      → weekday now ≡ c.schedule_weekday
      → (now < start_of c now) ⊎ ((window_of c valid now).2 < now)
  beside outside on = elim (Bool-cases (ltb now (start_of c now))) [
    | inl before ↦ inl (ltb→lt now (start_of c now) before)
    | inr after ↦ elim (Bool-cases (ltb (window_of c valid now).2 now)) [
      | inl over ↦ inr (ltb→lt _ now over)
      | inr within ↦ absurd (
          cc (
            outside,
            (scheduled_key_iff c valid now (start_of c now)).1
                (on, refl, not-ltb→le _ _ after, not-ltb→le _ _ within),
          ))
    ]
  ]

  -- The last window that began before the instant, which has ended.
  abbrev IsLatest : ℕ → Type 0
  IsLatest t =
      (latest_schedule_key c now ≡ ok (start_of c t))
      × (weekday t ≡ c.schedule_weekday)
      × (normalize now ≤ t + 7 * day_ns)
      × ((window_of c valid t).2 < now)

  abbrev since : ℕ
  since = (weekday now + 7 - c.schedule_weekday) % 7

  latest_eq : latest_schedule_key c now ≡ (
      let day = normalize now - since * day_ns in
      if ltb now (start_of c day) then ok (start_of c (day - 7 * day_ns)) else ok (start_of c day))
  unfolding latest_schedule_key
  latest_eq =
      let day = normalize now - since * day_ns in
      rw (schedule_timestamps-eq c valid day, schedule_timestamps-eq c valid (day - 7 * day_ns))
        refl

  before_start :
      weekday now ≡ c.schedule_weekday
      → now < start_of c now
      → 7 * day_ns ≤ normalize now
      → IsLatest (normalize now - 7 * day_ns)
  before_start on before late =
      let today : normalize now - since * day_ns ≡ normalize now = omega (arith, on) in
      let first : ltb now (start_of c (normalize now)) ≡ true =
        lt→ltb _ _ (rw (normalize_idem now) before) in
      let (on_day, after, over) = week_before c valid now on in_day late in
      (rw (latest_eq, today, first) refl, on_day, after, over)

  other_day :
      (weekday now == c.schedule_weekday) ≡ false
      → 7 * day_ns ≤ normalize now
      → IsLatest (normalize now - since * day_ns)
  other_day off late =
      let (begun, on_day, after, over) = days_before c valid now off in_day late in
      (rw (latest_eq, begun) refl, on_day, after, over)

  -- Outside the windows, the window of the day is over, or the latest window is.
  outside_lem :
      scheduled_key c now ≡ ok none
      → 7 * day_ns ≤ normalize now
      → (current_window_closed c now ≡ ok true)
        ⊎ ((current_window_closed c now ≡ ok false) × (t : ℕ) × IsLatest t)
  outside_lem outside late = elim (Bool-cases (weekday now == c.schedule_weekday)) [
    | inr off ↦ inr (rw (closed_at, off) refl, _, other_day off late)
    | inl same ↦
        let on = (==_iff (weekday now) c.schedule_weekday).0 same in
        elim (beside outside on) [
          | inr over ↦ inl (rw (closed_at, same, lt→ltb _ now over) refl)
          | inl before ↦
              inr (rw (closed_at, same, not_over before) refl, _, before_start on before late)
        ]
  ]
    where
      not_over : now < start_of c now → ltb (window_of c valid now).2 now ≡ false
      not_over before = ground arith

module _ (fl : FloatOps) (setting : Setting fl) (call : WeeklyCall)
    (valid : IsSchedule setting.schedule) (in_day : EndsInDay setting.schedule) where
  open fl use {F}

  -- With a schedule in range whose window ends on its day, one active experiment, random
  -- identifiers that differ, and tables whose links and incidents belong to recorded windows: a
  -- weekly call outside every window, a week or more after the start of the experiment, ends with a
  -- message. It fetches nothing and runs nothing: the account is as it was, and so are the rows of
  -- the windows that were there.
  pub weekly_call-outside :
      (w : World F) (experiment : String)
      → ((j k : ℕ) → j ≢ k → call.new_id j ≢ call.new_id k)
      → active_experiment_id w.forward ≡ ok experiment
      → IsFiled setting.schedule valid call.new_id w.forward
      → scheduled_key setting.schedule call.now ≡ ok none
      → normalize call.start + 7 * day_ns ≤ normalize call.now
      → (w' : World F) × (text : String) × (weekly_call fl setting call w ≡ (w', ok (stopped text)))
        × (w'.system ≡ w.system)
        × Grows w.forward w'.forward
  unfolding weekly_call admit ◌>>=◌ read lift returned
  weekly_call-outside w experiment distinct one filed outside begun =
      let c = setting.schedule in
      let (program, w', created, listed, returns, all, grows, same, _) =
        record_missed_windows-closes c valid call.new_id distinct call.start call.now w experiment
          one filed in
      elim (outside_lem c valid in_day call.now outside (omega arith)) [
        | inl closed ↦
            (w', "MISSED_SCHEDULE", rw (listed, returns, outside, closed) refl, same, grows)
        | inr (open_day, t, (latest, on, after, over)) ↦
            let there : window_exists (start_of c t) w'.forward.windows ≡ true =
              all t on (omega arith) over in
            (
              w',
              "DUPLICATE_SCHEDULE",
              rw (listed, returns, outside, open_day, latest, there) refl,
              same,
              grows,
            )
      ]
