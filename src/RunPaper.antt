-- ===== src/RunPaper.antt =====
-- The weekly call of `main` in run_paper.py, from the recording of missed windows to the run, and
-- its helpers on the schedule. What the call finds outside (the provenance of the release, the
-- market) is an argument, as are the identifiers. The reports and messages that follow a failure, and
-- what follows the run, are not modelled.
mod Calls
pub mod Branches
pub mod Outside
pub mod Unfetched
pub mod Refused
pub mod Once
use hermes_crypto_lab.Base
use hermes_crypto_lab.Base.{
  ℕ, ◌+◌, ◌-◌, ◌*◌, ◌%◌, String, Option, none, some, Bool, true, false, not, ◌&&◌, ◌||◌, List, [],
  ◌∷◌, ◌==◌, ltb, if◌then◌else◌, is_some, Result, ok, err, length, zero, suc,
}
use hermes_crypto_lab.Time.{aware, day_ns, normalize, weekday}
use hermes_crypto_lab.Float.{FloatOps}
use hermes_crypto_lab.Schedule.{
  ScheduleConfig, schedule_timestamps, schedule_window_end, scheduled_key,
}
use hermes_crypto_lab.State.{Program, ◌>>=◌, ◌>>◌, returned, lift, read}
use hermes_crypto_lab.Store.{
  ErrorOutcome, data_quality_failure, release_provenance_failure, kill_switch_activated, failed,
  Provenance, is_active, mem_text, schedule_exists,
}
use hermes_crypto_lab.PaperRun.{Setting, Request, PaperRunResult, run}
use hermes_crypto_lab.PaperRun.Act.{System}
use hermes_crypto_lab.Forward.{World}
use hermes_crypto_lab.Forward.Tables.{
  FinalOutcome, of_window, of_status, text_of, forward_window_exists, schedule_final_outcome,
}
use hermes_crypto_lab.Forward.Missed.{record_missed_windows}
use hermes_crypto_lab.Forward.Failure.{Failure, commit_operational_failure}
unfoldable pub use Calls.*

module _ (fl : FloatOps) (setting : Setting fl) (call : WeeklyCall) where
  open fl use {F}

  abbrev pub is_official : Option ℕ → Bool
  is_official key = not call.dry_run && is_some key

  abbrev pub failure : ErrorOutcome → String → Bool → Option Provenance → Option ℕ → Failure
  failure outcome message retryable provenance key = record {
    run_id = call.run_id;
    incident_id = call.incident_id;
    outcome = outcome;
    message = message;
    now = call.now;
    release_provenance = provenance;
    official_scheduled = is_official key;
    retryable_admission_failure = retryable;
  }

  -- A committed failure, and the exit.
  unfoldable pub fail_with : Failure → ℕ → Program (World F) (Exit F)
  fail_with f code = do commit_operational_failure fl setting f; returned (exit_code code)

  abbrev pub missed_then :
      Option (Program (World F) ℕ) → Program (World F) (Exit F) → Program (World F) (Exit F)
  missed_then none next = returned still_running
  missed_then (some missed) next = missed >> next

  abbrev pub is_late : Option ℕ → ℕ → Bool
  is_late none now = false
  is_late (some deadline) now = ltb deadline now

  -- A run of the account, with the column `run_id` of the fills that it adds.
  abbrev pub with_fills : World F → System F × Result (PaperRunResult F) → World F
  with_fills w (s, r) = record w {
    system = s;
    forward = record w.forward {
      fill_runs =
          copies (length s.books.fills - length w.system.books.fills) call.run_id
            w.forward.fill_runs;
    };
  }

  abbrev pub exit_after : Result (PaperRunResult F) → Result (Exit F)
  exit_after (err e) = err e
  exit_after (ok result) = ok (ran result)

  abbrev pub run_now : Option ℕ → Option Provenance → ℕ → Program (World F) (Exit F)
  run_now key provenance now w =
      let o =
        run fl setting
          (record {
            run_id = call.run_id;
            now = now;
            is_dry_run = call.dry_run;
            release_provenance = provenance;
            require_release_provenance = is_official key;
            official_scheduled = is_official key;
          })
          w.system in
      (with_fills w o, exit_after o.1)

  abbrev pub after_fetch :
      Option ℕ → Option ℕ → Option Provenance → Fetched → Program (World F) (Exit F)
  after_fetch key deadline provenance (unfetched reason transient) =
      fail_with (failure data_quality_failure reason false provenance key)
        (if transient then 4 else 2)
  after_fetch key deadline provenance (fetched now) =
      if is_late deadline now
      then missed_then (record_missed_windows setting.schedule call.later_id now call.start)
          (returned (stopped "MISSED_SCHEDULE"))
      else run_now key provenance now

  unfoldable pub check_account :
      Option ℕ → Option ℕ → Option Provenance → Program (World F) (Exit F)
  check_account key deadline provenance = do
    status ← read (λ w. w.system.store.account_status)
    if is_active status
        then after_fetch key deadline provenance call.fetch
        else fail_with
            (failure kill_switch_activated "Persistent kill switch is active; no trade attempted"
              false provenance key)
            2

  abbrev pub after_capture : Option ℕ → Option ℕ → Captured → Program (World F) (Exit F)
  after_capture key deadline (captured p) = check_account key deadline (some p)
  after_capture key deadline (refused message retryable) =
      fail_with (failure release_provenance_failure message retryable none key)
        (if retryable then 4 else 2)

  abbrev pub proceed : Option ℕ → Option ℕ → Program (World F) (Exit F)
  proceed key deadline =
      if is_official key
      then after_capture key deadline call.capture
      else check_account key deadline none

  unfoldable pub finalized : ℕ → Program (World F) (Exit F)
  finalized key = do
    final ← read (λ w. schedule_final_outcome key w.system.store w.forward)
    returned (if is_fatal final then exit_code 2 else stopped "DUPLICATE_SCHEDULE")

  abbrev pub is_taken : ℕ → World F → Bool
  is_taken key w = schedule_exists key w.system.store || forward_window_exists key w.forward

  abbrev pub by_key : Option ℕ → Option ℕ → Program (World F) (Exit F)
  by_key none deadline = do
    latest ← lift (latest_schedule_key setting.schedule call.now)
    taken ←
        read (λ w. forward_window_exists latest w.forward || schedule_exists latest w.system.store)
    if taken then returned (stopped "DUPLICATE_SCHEDULE") else proceed none deadline
  by_key (some key) deadline = do
    taken ← read (λ w. not call.dry_run && is_taken key w)
    if taken then finalized key else proceed (some key) deadline

  -- What follows the recording of missed windows.
  unfoldable pub admit : Program (World F) (Exit F)
  admit = do
    key ← lift (scheduled_key setting.schedule call.now)
    deadline ← lift (window_deadline setting.schedule key)
    closed ← lift (current_window_closed setting.schedule call.now)
    if closed then returned (stopped "MISSED_SCHEDULE") else by_key key deadline

  unfoldable pub weekly_call : Program (World F) (Exit F)
  weekly_call =
      missed_then (record_missed_windows setting.schedule call.new_id call.now call.start) admit
