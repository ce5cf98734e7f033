-- ===== src/Forward/Missed/Closes.antt =====
-- `record_missed_windows` of src/forward_operations.py as a whole.
use hermes_crypto_lab.Base.{
  ℕ, ◌+◌, ◌<◌, ◌≤◌, ◌≡◌, ◌≢◌, refl, String, Option, none, some, true, false, List, [], ◌∷◌, any_of,
  All, ◌==◌, Result, ok, err, or_left, Bool-cases, inl, inr, ==_iff, or_split,
}
use hermes_crypto_lab.Time.{normalize, weekday}
use hermes_crypto_lab.Schedule.{ScheduleConfig}
use hermes_crypto_lab.Schedule.Window.{IsSchedule, start_of, window_of}
use hermes_crypto_lab.State.{Program, ◌>>=◌, returned, lift, read, then_run}
use hermes_crypto_lab.Store.{Run}
use hermes_crypto_lab.Forward.{World, on_forward}
use hermes_crypto_lab.Forward.Tables.{ForwardTables, active_experiment_id, window_exists}
use hermes_crypto_lab.Forward.Missed.{
  file_listed, run_window, file_by, file_window, file_windows, record_missed_windows,
}
use hermes_crypto_lab.Forward.Missed.Calendar.{target_at, scheduled_mondays_lem}
use hermes_crypto_lab.Forward.Missed.Filed.{IsFiled}
use hermes_crypto_lab.Forward.Rows.{Grows, Grows-refl, Grows-trans}
use hermes_crypto_lab.Forward.Missed.Filing.{file_committed_lem, file_missed_lem}

only_key :
    (key target k : ℕ) → any_of (λ (d : ℕ × ℕ). d.0 == k) ((key, target) ∷ []) ≡ true → key ≡ k
only_key key target k h = elim (or_split (key == k) false h) [
  | inl same ↦ (==_iff key k).0 same
  | inr never ↦ absurd (cc never)
]

module _ {F : Type 0} (c : ScheduleConfig) (valid : IsSchedule c) (new_id : ℕ → String)
    (distinct : (j k : ℕ) → j ≢ k → new_id j ≢ new_id k) where
  -- The call returns, with the account as it was and the window recorded.
  record Recorded (w : World F) (o : World F × Result ℕ) (due : List (ℕ × ℕ)) : Type 0 where
    created : ℕ
    returns : o.1 ≡ ok created
    system : o.0.system ≡ w.system
    grows : Grows w.forward o.0.forward
    filed : IsFiled c valid new_id o.0.forward
    all :
        (k : ℕ)
        → any_of (λ (d : ℕ × ℕ). d.0 == k) due ≡ true
        → window_exists k o.0.forward.windows ≡ true

  -- One transaction that records the window.
  on_forward-Recorded :
      (operation : ForwardTables → Result ForwardTables) (n key target : ℕ) (w : World F)
      (t' : ForwardTables)
      → operation w.forward ≡ ok t'
      → Grows w.forward t'
      → IsFiled c valid new_id t'
      → window_exists key t'.windows ≡ true
      → Recorded w ((on_forward operation >>= (λ done. returned n)) w) ((key, target) ∷ [])
  unfolding on_forward ◌>>=◌ returned
  on_forward-Recorded operation n key target w t' e grows filed there = rw e (record {
    created = n;
    returns = refl;
    system = refl;
    grows = grows;
    filed = filed;
    all = λ k h. rw (← only_key key target k h) there;
  })

  -- One window, and then the others.
  Recorded-bind :
      (act : Program (World F) ℕ) (next : ℕ → Program (World F) ℕ) (d : ℕ × ℕ)
      (later : List (ℕ × ℕ)) (w : World F)
      → Recorded w (act w) (d ∷ [])
      → ((n : ℕ) (w1 : World F) → IsFiled c valid new_id w1.forward → Recorded w1 (next n w1) later)
      → Recorded w ((act >>= next) w) (d ∷ later)
  unfolding ◌>>=◌
  Recorded-bind act next d later w first rest = after (act w) first
    where
      after :
          (o : World F × Result ℕ)
          → Recorded w o (d ∷ [])
          → Recorded w (then_run o next) (d ∷ later)
      after (w1, err e) r = absurd (cc r.returns)
      after (w1, ok n) r =
          let q = rest n w1 r.filed in
          record {
            created = q.created;
            returns = q.returns;
            system = rw q.system r.system;
            grows = Grows-trans _ _ _ r.grows q.grows;
            filed = q.filed;
            all = λ k h. elim (or_split (d.0 == k) _ h) [
              | inl here ↦ (q.grows.kept k (r.all k (or_left _ _ here))).0
              | inr there ↦ q.all k there
            ];
          }

  Recorded-add :
      (act : Program (World F) ℕ) (n : ℕ) (later : List (ℕ × ℕ)) (w : World F)
      → Recorded w (act w) later
      → Recorded w ((act >>= (λ r. returned (n + r))) w) later
  unfolding ◌>>=◌ returned
  Recorded-add act n later w first = after (act w) first
    where
      after :
          (o : World F × Result ℕ)
          → Recorded w o later
          → Recorded w (then_run o (λ r. returned (n + r))) later
      after (w1, err e) r = absurd (cc r.returns)
      after (w1, ok m) r = record {
        created = n + m;
        returns = refl;
        system = r.system;
        grows = r.grows;
        filed = r.filed;
        all = r.all;
      }

  module _ (experiment : String) (now : ℕ) where
    file_by-Recorded :
        (key : ℕ) (run : Option Run) (w : World F)
        → IsFiled c valid new_id w.forward
        → window_exists key w.forward.windows ≡ false
        → Recorded w
            (file_by experiment new_id now key (target_at c valid key) run w)
            ((key, target_at c valid key) ∷ [])
    unfolding ◌>>=◌ read
    file_by-Recorded key none w filed away =
        let (t', e, grows, filed', there) =
          file_missed_lem c valid new_id distinct experiment key now w.forward filed away in
        on_forward-Recorded _ 1 key _ w t' e grows filed' there
    file_by-Recorded key (some r) w filed away =
        let (t', e, grows, filed', there) =
          file_committed_lem c valid new_id distinct experiment
            (run_window now key (target_at c valid key) r w.forward.fill_runs) w.forward filed
            away in
        on_forward-Recorded _ 0 key _ w t' e grows filed' there

    file_window-Recorded :
        (key : ℕ) (w : World F)
        → IsFiled c valid new_id w.forward
        → Recorded w
            (file_window experiment new_id now key (target_at c valid key) w)
            ((key, target_at c valid key) ∷ [])
    unfolding file_window ◌>>=◌ read returned
    file_window-Recorded key w filed = elim (Bool-cases (window_exists key w.forward.windows)) [
      | inl there ↦ rw there (record {
        created = 0;
        returns = refl;
        system = refl;
        grows = Grows-refl w.forward;
        filed = filed;
        all = λ k h. rw (← only_key key (target_at c valid key) k h) there;
      })
      | inr away ↦ rw away (file_by-Recorded key _ w filed away)
    ]

    file_windows-Recorded :
        (due : List (ℕ × ℕ)) (w : World F)
        → All (λ d. d.1 ≡ target_at c valid d.0) due
        → IsFiled c valid new_id w.forward
        → Recorded w (file_windows experiment new_id now due w) due
    unfolding file_windows returned
    file_windows-Recorded [] w on_target filed = record {
      created = 0;
      returns = refl;
      system = refl;
      grows = Grows-refl w.forward;
      filed = filed;
      all = λ k h. absurd (cc h);
    }
    file_windows-Recorded ((key, target) ∷ later) w on_target filed =
        Recorded-bind _ _ (key, target) later w (rw on_target.0 (file_window-Recorded key w filed))
          (λ n w1 filed1.
            Recorded-add _ n later w1 (file_windows-Recorded later w1 on_target.1 filed1))

  -- With a schedule in range, one active experiment, random identifiers that differ, and tables
  -- whose links and incidents belong to recorded windows: the recording of missed windows ends and
  -- returns. Every window of the schedule from the day of the start on that has ended has a row
  -- after it, the rows that were there are as before, the account and its runs are untouched, and
  -- the tables are again as described.
  pub record_missed_windows-closes :
      (start now : ℕ) (w : World F) (experiment : String)
      → active_experiment_id w.forward ≡ ok experiment
      → IsFiled c valid new_id w.forward
      → (program : Program (World F) ℕ) × (w' : World F) × (created : ℕ) × (record_missed_windows c
            new_id now start
          ≡ some program)
        × (program w ≡ (w', ok created))
        × ((t : ℕ)
            → weekday t ≡ c.schedule_weekday
            → normalize start ≤ t
            → (window_of c valid t).2 < now
            → window_exists (start_of c t) w'.forward.windows ≡ true)
        × Grows w.forward w'.forward
        × (w'.system ≡ w.system)
        × IsFiled c valid new_id w'.forward
  unfolding record_missed_windows ◌>>=◌ read lift
  record_missed_windows-closes start now w experiment one filed =
      let (due, listed, on_target, all) = scheduled_mondays_lem c valid now start in
      let r = file_windows-Recorded experiment now due w on_target filed in
      (
        file_listed c new_id now (ok due),
        (file_windows experiment new_id now due w).0,
        r.created,
        rw listed refl,
        rw one (ended r.returns),
        λ t on after before. r.all (start_of c t) (all t on after before),
        r.grows,
        r.system,
        r.filed,
      )
    where
      ended : {o : World F × Result ℕ} {n : ℕ} → o.1 ≡ ok n → o ≡ (o.0, ok n)
      ended {o} e = rw (← e) refl
