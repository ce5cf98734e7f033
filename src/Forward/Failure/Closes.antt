-- ===== src/Forward/Failure/Closes.antt =====
-- `commit_operational_failure` of src/paper_forward.py where the failure is final.
use hermes_crypto_lab.Base.{ℕ, ◌≡◌, refl, String, none, some, true, false, ok, ==_iff}
use hermes_crypto_lab.Time.{aware}
use hermes_crypto_lab.Float.{FloatOps}
use hermes_crypto_lab.Schedule.{scheduled_key, schedule_target_from_start}
use hermes_crypto_lab.Schedule.Window.{
  IsSchedule, window_of, schedule_timestamps-eq, schedule_from_start, scheduled_key_iff,
}
use hermes_crypto_lab.State.{◌>>=◌, returned, lift, read}
use hermes_crypto_lab.Store.{
  Store, failed, key_exists, schedule_exists, insert_run, finish_run, finished, update_run,
}
use hermes_crypto_lab.Store.Steps.{insert_run-passed}
use hermes_crypto_lab.PaperRun.{Setting}
use hermes_crypto_lab.PaperRun.Act.{on_store}
use hermes_crypto_lab.Forward.{World, in_system, on_forward}
use hermes_crypto_lab.Forward.Tables.{
  active_experiment_id, text_of, of_window, schedule_final_outcome,
}
use hermes_crypto_lab.Forward.Record.{incident_id_exists}
use hermes_crypto_lab.Forward.Record.Claimed.{
  record_forward_window-ClaimedAt, record_forward_incident-windows,
}
use hermes_crypto_lab.Forward.Claims.{holder_at}
use hermes_crypto_lab.Forward.Failure.{
  Failure, failure_result, forward_row, incident_row, is_retryable, failure_row, halt_account,
  write_run, commit_failure, commit_operational_failure,
}
use hermes_crypto_lab.Forward.Failure.Retry.{key_exists-update_run, runs-halt_account}

module _ (fl : FloatOps) (setting : Setting fl) (f : Failure)
    (valid : IsSchedule setting.schedule) where
  open fl use {F}

  pub target-found :
      (key : ℕ)
      → scheduled_key setting.schedule f.now ≡ ok (some key)
      → (target : ℕ) × (schedule_target_from_start setting.schedule (aware key) ≡ ok target)
  target-found key window =
      let (_, start, _, _) = (scheduled_key_iff setting.schedule valid f.now key).0 window in
      let (found, _) =
        schedule_from_start setting.schedule valid f.now
          (schedule_timestamps-eq setting.schedule valid f.now) in
      ((window_of setting.schedule valid f.now).1, rw start found)

  abbrev pub ended_store : World F → Store → Store
  ended_store w s =
      let halted = halt_account f s in
      let end = finished (failed f.outcome) f.now f.message (setting.reconcile w.system) in
      record halted { runs = update_run f.run_id end halted.runs }

  abbrev pub after_run : World F → Store → World F
  after_run w s = record w { system = record w.system { store = ended_store w s } }

  pub write_run-after_run :
      (key : ℕ) (w : World F) (s : Store)
      → insert_run setting.matches (failure_row f (some key) none) w.system.store ≡ ok s
      → write_run fl setting f (some key) none w ≡ (after_run w s, ok tt)
  unfolding write_run in_system on_store ◌>>=◌ read finish_run
  write_run-after_run key w s e = rw e refl

  after_run-schedule_exists :
      (key : ℕ) (w : World F) (s : Store)
      → insert_run setting.matches (failure_row f (some key) none) w.system.store ≡ ok s
      → schedule_exists key (ended_store w s) ≡ true
  unfolding key_exists
  after_run-schedule_exists key w s e =
      let end = finished (failed f.outcome) f.now f.message (setting.reconcile w.system) in
      rw
        (
          key_exists-update_run key f.run_id end (halt_account f s).runs (λ r. refl),
          runs-halt_account f s,
          (insert_run-passed setting.matches (failure_row f (some key) none) w.system.store s e).2,
          (==_iff key key).1 refl,
        )
        refl

  -- With a schedule in range, one active experiment, and a free incident identifier: a failure that
  -- is final, at an instant in a window of the schedule that no run holds, whose row the database
  -- admits, returns. The window then belongs to the failed run, in the table of runs as in that of
  -- windows, and its final outcome is the failure's.
  pub commit_operational_failure-ClaimedAt :
      (w : World F) (key : ℕ) (experiment : String) (s : Store)
      → scheduled_key setting.schedule f.now ≡ ok (some key)
      → is_retryable f.outcome f.retryable_admission_failure ≡ false
      → schedule_exists key w.system.store ≡ false
      → holder_at key w.forward ≡ none
      → insert_run setting.matches (failure_row f (some key) none) w.system.store ≡ ok s
      → active_experiment_id w.forward ≡ ok experiment
      → incident_id_exists f.incident_id w.forward.incidents ≡ false
      → (w' : World F) × (commit_operational_failure fl setting f w
          ≡ (w', ok (failure_result fl setting f)))
        × (schedule_exists key w'.system.store ≡ true)
        × (holder_at key w'.forward ≡ some f.run_id)
        × (schedule_final_outcome key w'.system.store w'.forward
            ≡ some (of_window (text_of f.outcome)))
  unfolding commit_operational_failure commit_failure on_forward ◌>>=◌ read lift returned
      schedule_final_outcome
  commit_operational_failure-ClaimedAt w key experiment s window final free unheld admitted one
        new =
      let (target, on_target) = target-found key window in
      let n = forward_row fl setting f key target in
      let (t1, filed, (row, found, own, outcome), same_experiments, same_incidents) =
        record_forward_window-ClaimedAt n f.run_id experiment w.forward refl one unheld in
      let (t2, noted, same) =
        record_forward_incident-windows (incident_row fl setting f (some target)) experiment t1
          (rw same_experiments one) (rw same_incidents new) in
      (
        record (after_run w s) { forward = t2 },
        rw (window, final, free, write_run-after_run key w s admitted, on_target, filed, noted)
            refl,
        after_run-schedule_exists key w s admitted,
        rw (same, found) own,
        rw (same, found, outcome) refl,
      )
