-- ===== src/Forward/Missed/Calendar.antt =====
-- The days that the loops of `_scheduled_mondays` visit, and the windows that they list.
use hermes_crypto_lab.Base.{
  ℕ, zero, suc, ◌+◌, ◌-◌, ◌*◌, ◌/◌, ◌%◌, ◌≤◌, ◌<◌, ◌≡◌, refl, arith, some, true, false, List, [],
  ◌∷◌, any_of, All, ◌==◌, ltb, leb, ok, Bool-cases, inl, inr, or_right, or_split, ==_iff, lt→ltb,
}
use hermes_crypto_lab.Time.{day_ns, minute_ns, normalize, weekday}
use hermes_crypto_lab.Schedule.{ScheduleConfig}
use hermes_crypto_lab.Schedule.Window.{
  IsSchedule, start_of, window_of, offset, schedule_timestamps-eq,
}
use hermes_crypto_lab.Forward.Missed.{week_ns, first_day, weeks, ended, scheduled_mondays}

first_day_lem :
    (n wd cursor j : ℕ)
    → j ≤ n
    → weekday (cursor + j * day_ns) ≡ wd
    → (i : ℕ) × (first_day (suc n) wd cursor ≡ some (cursor + i * day_ns))
      × (i ≤ j)
      × (weekday (cursor + i * day_ns) ≡ wd)
unfolding first_day
first_day_lem n wd cursor zero le at =
    let same : cursor + 0 * day_ns ≡ cursor = omega arith in
    (0, rw (same, (==_iff (weekday cursor) wd).1 (rw same at at)) refl, omega arith, at)
first_day_lem zero wd cursor (suc j) le at = absurd (omega arith)
first_day_lem (suc n) wd cursor (suc j) le at = elim (Bool-cases (weekday cursor == wd)) [
  | inl here ↦
      let same : cursor + 0 * day_ns ≡ cursor = omega arith in
      (0, rw (same, here) refl, omega arith, rw same ((==_iff (weekday cursor) wd).0 here))
  | inr later ↦
      let shift : (m : ℕ) → cursor + day_ns + m * day_ns ≡ cursor + suc m * day_ns =
        λ m. omega arith in
      let (i, found, le_i, on) =
        first_day_lem n wd (cursor + day_ns) j (omega arith) (rw (shift j) at) in
      (suc i, rw later (rw (← shift i) found), omega arith, rw (← shift i) on)
]

weeks_lem :
    (n cursor last : ℕ)
    → last < cursor + n * week_ns
    → (days : List ℕ) × (weeks (suc n) cursor last ≡ some days)
      × ((m : ℕ)
          → cursor + m * week_ns ≤ last
          → any_of (λ d. d == (cursor + m * week_ns)) days ≡ true)
unfolding weeks
weeks_lem zero cursor last ends =
    let over : leb cursor last ≡ false = ground arith in
    ([], rw over refl, λ m le. absurd (omega arith))
weeks_lem (suc n) cursor last ends =
    let shift : (m : ℕ) → cursor + week_ns + m * week_ns ≡ cursor + suc m * week_ns =
      λ m. omega arith in
    let (days, found, all) = weeks_lem n (cursor + week_ns) last (omega arith) in
    elim (Bool-cases (leb cursor last)) [
      | inr over ↦ ([], rw over refl, λ m le. absurd (over_le cursor last m over le))
      | inl goes ↦ (cursor ∷ days, rw (goes, found) refl, λ m. is_there days shift all m)
    ]
  where
    over_le : (a b m : ℕ) → leb a b ≡ false → a + m * week_ns ≤ b → ⊥
    over_le a b m over le = ground arith

    is_there :
        (days : List ℕ)
        → ((m : ℕ) → cursor + week_ns + m * week_ns ≡ cursor + suc m * week_ns)
        → ((m : ℕ)
            → cursor + week_ns + m * week_ns ≤ last
            → any_of (λ d. d == (cursor + week_ns + m * week_ns)) days ≡ true)
        → (m : ℕ) → cursor + m * week_ns ≤ last
        → any_of (λ d. d == (cursor + m * week_ns)) (cursor ∷ days) ≡ true
    is_there days shift all zero le =
        rw ((==_iff cursor (cursor + 0 * week_ns)).1 (omega arith)) refl
    is_there days shift all (suc m) le = or_right _ _ (rw (shift m) at (all m (rw (shift m) le)))

-- Six turns reach any weekday.
turns :
    (start wd : ℕ)
    → wd ≤ 6
    → weekday (normalize start + (wd + 7 - weekday (normalize start)) % 7 * day_ns) ≡ wd
unfolding normalize weekday
turns start wd le = omega arith

enough : (d now : ℕ) → normalize now < d + (now / week_ns + 1) * week_ns
unfolding normalize
enough d now = omega arith

normalize_idem : (t : ℕ) → normalize (normalize t) ≡ normalize t
unfolding normalize
normalize_idem t = omega arith

le_now : (t now : ℕ) → normalize t ≤ now → normalize t ≤ normalize now
unfolding normalize
le_now t now le = omega arith

-- Days on the same weekday are whole weeks apart.
on_week :
    (start i t wd : ℕ)
    → i ≤ 6
    → weekday (normalize start + i * day_ns) ≡ wd
    → weekday t ≡ wd
    → normalize start ≤ t
    → let d = normalize start + i * day_ns in
      d + (normalize t - d) / week_ns * week_ns ≡ normalize t
unfolding normalize weekday
on_week start i t wd le on at after = omega arith

-- The target of the window that starts at an instant.
abbrev pub target_at : (c : ScheduleConfig) → IsSchedule c → ℕ → ℕ
target_at c valid key = key + offset c valid * minute_ns

module _ (c : ScheduleConfig) (valid : IsSchedule c) (now : ℕ) where
  ended_lem :
      (days : List ℕ)
      → (due : List (ℕ × ℕ)) × (ended c now days ≡ ok due)
        × All (λ w. w.1 ≡ target_at c valid w.0) due
        × ((d : ℕ)
            → any_of (λ x. x == d) days ≡ true
            → (window_of c valid d).2 < now
            → any_of (λ w. w.0 == start_of c d) due ≡ true)
  unfolding ended
  ended_lem [] = ([], refl, tt, λ d there. absurd (cc there))
  ended_lem (day ∷ days) =
      let (due, found, on_target, all) = ended_lem days in
      elim (Bool-cases (ltb (window_of c valid day).2 now)) [
        | inl over ↦ (
          (start_of c day, target_at c valid (start_of c day)) ∷ due,
          rw (schedule_timestamps-eq c valid day, found, over) refl,
          (refl, on_target),
          λ d there before. elim (or_split (day == d) _ there) [
            | inl same ↦
                let one : day ≡ d = (==_iff day d).0 same in
                rw (one, (==_iff (start_of c d) (start_of c d)).1 refl) refl
            | inr later ↦ or_right _ _ (all d later before)
          ],
        )
        | inr open_still ↦ (
          due,
          rw (schedule_timestamps-eq c valid day, found, open_still) refl,
          on_target,
          λ d there before. elim (or_split (day == d) _ there) [
            | inl same ↦
                let one : day ≡ d = (==_iff day d).0 same in
                absurd (cc (lt→ltb _ _ before, one, open_still))
            | inr later ↦ all d later before
          ],
        )
      ]

  -- The loops of `_scheduled_mondays` end, for a schedule in range and any two instants.
  pub scheduled_mondays_lem :
      (start : ℕ)
      → (due : List (ℕ × ℕ)) × (scheduled_mondays c start now ≡ some (ok due))
        × All (λ w. w.1 ≡ target_at c valid w.0) due
        × ((t : ℕ)
            → weekday t ≡ c.schedule_weekday
            → normalize start ≤ t
            → (window_of c valid t).2 < now
            → any_of (λ w. w.0 == start_of c t) due ≡ true)
  unfolding scheduled_mondays
  scheduled_mondays_lem start =
      let j = (c.schedule_weekday + 7 - weekday (normalize start)) % 7 in
      let (i, first, le_i, on) =
        first_day_lem 6 c.schedule_weekday (normalize start) j (omega arith)
          (turns start c.schedule_weekday valid.weekday_in) in
      let d = normalize start + i * day_ns in
      let (days, seen, all) = weeks_lem (now / week_ns + 1) d (normalize now) (enough d now) in
      let (due, found, on_target, all_due) = ended_lem days in
      (
        due,
        rw (first, seen, found) refl,
        on_target,
        λ t wd after before.
            let m = (normalize t - d) / week_ns in
            let at = on_week start i t c.schedule_weekday (omega (arith, le_i)) on wd after in
            let same = normalize_idem t in
            let listed_at =
              all_due (normalize t)
                (rw at at (all m (rw at (le_now t now (omega (arith, before))))))
                (rw same before) in
            rw same at listed_at,
      )
