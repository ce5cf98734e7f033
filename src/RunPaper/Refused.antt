-- ===== src/RunPaper/Refused.antt =====
-- The weekly call of run_paper.py in a window with a committed failure.
use hermes_crypto_lab.Base.{
  ℕ, ◌≡◌, ◌≢◌, refl, sym, ap, Result, arith, none, some, Bool, true, false, ltb, ok, String, ==_iff,
}
use mathlib.Core.Path.{subst}
use hermes_crypto_lab.Time.{weekday}
use hermes_crypto_lab.Float.{FloatOps}
use hermes_crypto_lab.Schedule.{ScheduleConfig, scheduled_key}
use hermes_crypto_lab.Schedule.Window.{
  IsSchedule, window_of, schedule_timestamps-eq, schedule_from_start, scheduled_key_iff,
}
use hermes_crypto_lab.State.{◌>>=◌, read, lift, returned}
use hermes_crypto_lab.Store.{
  Store, ErrorOutcome, kill_switch_activated, data_quality_failure, reconciliation_failure,
  execution_error, release_provenance_failure, schedule_exists, insert_run, mem_text,
}
use hermes_crypto_lab.PaperRun.{Setting}
use hermes_crypto_lab.Forward.{World}
use hermes_crypto_lab.Forward.Tables.{
  active_experiment_id, window_exists, schedule_final_outcome, of_window, text_of,
}
use hermes_crypto_lab.Forward.Record.{incident_id_exists}
use hermes_crypto_lab.Forward.Claims.{holder_at, held-exists}
use hermes_crypto_lab.Forward.Rows.{Grows}
use hermes_crypto_lab.Forward.Missed.Filed.{IsFiled}
use hermes_crypto_lab.Forward.Missed.Closes.{record_missed_windows-closes}
use hermes_crypto_lab.Forward.Failure.{
  Failure, FailureResult, failure_result, failure_row, is_retryable, commit_operational_failure,
}
use hermes_crypto_lab.Forward.Failure.Leaves.{commit_operational_failure-IsFiled}
use hermes_crypto_lab.Forward.Failure.Closes.{commit_operational_failure-ClaimedAt}
use hermes_crypto_lab.RunPaper.{
  WeeklyCall, exit_code, current_window_closed, window_deadline, is_fatal, finalized, admit,
  weekly_call,
}

-- In a window, its deadline is its end, and it is not closed.
in_window :
    (c : ScheduleConfig) (valid : IsSchedule c) (now key : ℕ)
    → scheduled_key c now ≡ ok (some key)
    → (window_deadline c (some key) ≡ ok (some (window_of c valid now).2))
      × (current_window_closed c now ≡ ok false)
unfolding current_window_closed
in_window c valid now key window =
    let (on, start, from, until) = (scheduled_key_iff c valid now key).0 window in
    let (_, end) = schedule_from_start c valid now (schedule_timestamps-eq c valid now) in
    let still : ltb (window_of c valid now).2 now ≡ false = ground arith in
    (
      rw (start, end) refl,
      rw (schedule_timestamps-eq c valid now, (==_iff (weekday now) c.schedule_weekday).1 on, still)
          refl,
    )

final-fatal :
    (e : ErrorOutcome) (retryable : Bool)
    → is_retryable e retryable ≡ false
    → is_fatal (some (of_window (text_of e))) ≡ true
unfolding mem_text
final-fatal kill_switch_activated retryable h = refl
final-fatal data_quality_failure retryable h = absurd (cc h)
final-fatal reconciliation_failure retryable h = refl
final-fatal execution_error retryable h = refl
final-fatal release_provenance_failure retryable h = refl

module _ (fl : FloatOps) (setting : Setting fl) (f : Failure) (call : WeeklyCall)
    (valid : IsSchedule setting.schedule) where
  open fl use {F}

  admit-fatal :
      (w : World F) (key : ℕ)
      → call.dry_run ≡ false
      → scheduled_key setting.schedule call.now ≡ ok (some key)
      → schedule_exists key w.system.store ≡ true
      → is_fatal (schedule_final_outcome key w.system.store w.forward) ≡ true
      → admit fl setting call w ≡ (w, ok (exit_code 2))
  unfolding admit finalized ◌>>=◌ read lift returned
  admit-fatal w key paper window held fatal =
      let (deadline, closed) = in_window setting.schedule valid call.now key window in
      rw (window, deadline, closed, paper, held, fatal) refl

  -- The recording of missed windows leaves a settled window as it is, and the call stops at it.
  weekly_call-fatal :
      (w : World F) (key : ℕ) (experiment : String)
      → ((j k : ℕ) → j ≢ k → call.new_id j ≢ call.new_id k)
      → active_experiment_id w.forward ≡ ok experiment
      → IsFiled setting.schedule valid call.new_id w.forward
      → call.dry_run ≡ false
      → scheduled_key setting.schedule call.now ≡ ok (some key)
      → schedule_exists key w.system.store ≡ true
      → window_exists key w.forward.windows ≡ true
      → is_fatal (schedule_final_outcome key w.system.store w.forward) ≡ true
      → (w' : World F) × (weekly_call fl setting call w ≡ (w', ok (exit_code 2)))
        × (w'.system ≡ w.system)
        × Grows w.forward w'.forward
  unfolding weekly_call schedule_final_outcome ◌>>=◌
  weekly_call-fatal w key experiment distinct one filed paper window held there fatal =
      let (program, w', created, listed, returns, all, grows, same, _) =
        record_missed_windows-closes setting.schedule valid call.new_id distinct call.start call.now
          w experiment one filed in
      let (_, kept) = grows.kept key there in
      let stops : admit fl setting call w' ≡ (w', ok (exit_code 2)) =
        admit-fatal w' key paper window (rw same held) (rw (kept, same) fatal) in
      (w', (rw (listed, returns) stops), same, grows)

  -- With a schedule in range, one active experiment, tables whose links and incidents belong to
  -- recorded windows, and random identifiers that differ from each other and from the free one of
  -- the incident: a final failure in a window that no run holds, whose row the database admits,
  -- returns. A weekly call on paper in the same window then exits with code 2: its recording of missed
  -- windows may file other windows, but the rows that were there, the account and its runs are as the
  -- failure left them.
  pub weekly_call-after_failure :
      (w : World F) (key : ℕ) (experiment : String) (s : Store)
      → scheduled_key setting.schedule f.now ≡ ok (some key)
      → is_retryable f.outcome f.retryable_admission_failure ≡ false
      → schedule_exists key w.system.store ≡ false
      → holder_at key w.forward ≡ none
      → insert_run setting.matches (failure_row f (some key) none) w.system.store ≡ ok s
      → active_experiment_id w.forward ≡ ok experiment
      → incident_id_exists f.incident_id w.forward.incidents ≡ false
      → ((k : ℕ) → f.incident_id ≢ call.new_id k)
      → IsFiled setting.schedule valid call.new_id w.forward
      → ((j k : ℕ) → j ≢ k → call.new_id j ≢ call.new_id k)
      → call.dry_run ≡ false
      → scheduled_key setting.schedule call.now ≡ ok (some key)
      → let (failed, answer) = commit_operational_failure fl setting f w in
        (w' : World F) × (answer ≡ ok (failure_result fl setting f))
        × (weekly_call fl setting call failed ≡ (w', ok (exit_code 2)))
        × (w'.system ≡ failed.system)
        × Grows failed.forward w'.forward
  weekly_call-after_failure w key experiment s window final free unheld admitted one new other filed
        distinct paper again =
      let (v, returns, held, owner, outcome) =
        commit_operational_failure-ClaimedAt fl setting f valid w key experiment s window final free
          unheld admitted one new in
      let (still, filed') =
        commit_operational_failure-IsFiled fl setting f valid call.new_id w key experiment s window
          final free unheld admitted one new other filed in
      let failed = (commit_operational_failure fl setting f w).0 in
      let same : v ≡ failed = sym (ap (λ (o : World F × Result FailureResult). o.0) returns) in
      let (w', called, kept, grows) =
        weekly_call-fatal failed key experiment distinct still filed' paper again
          (subst (λ u. schedule_exists key u.system.store ≡ true) same held)
          (subst (λ u. window_exists key u.forward.windows ≡ true) same
            (held-exists key f.run_id v.forward.windows owner))
          (subst (λ u. is_fatal (schedule_final_outcome key u.system.store u.forward) ≡ true) same
            (rw outcome (final-fatal f.outcome f.retryable_admission_failure final))) in
      (w', ap (λ (o : World F × Result FailureResult). o.1) returns, called, kept, grows)
