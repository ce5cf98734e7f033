-- ===== src/Tests/Windows.antt =====
-- The tables of the forward experiment on small examples.
use Prim.Native.String.{◌∷◌ as char_cons, [] as empty_text}
use hermes_crypto_lab.Base.{
  ℕ, zero, suc, ◌*◌, ◌≡◌, ◌≢◌, ◌≤◌, ◌<◌, refl, ap, String, none, some, true, false, [], ◌∷◌, ok,
  arith,
}
use hermes_crypto_lab.Base.Int.{ℤ}
use hermes_crypto_lab.Time.{minute_ns, normalize, weekday}
use hermes_crypto_lab.Schedule.{scheduled_key, schedule_timestamps, target_offset_minutes}
use hermes_crypto_lab.Schedule.Window.{IsSchedule, start_of, window_of}
use hermes_crypto_lab.State.{Program}
use hermes_crypto_lab.Store.{
  ErrorOutcome, execution_error, data_quality_failure, insert_run, check_provenance, run_exists,
  key_exists, mem_text, schedule_exists,
}
use hermes_crypto_lab.Store.Steps.{inserted}
use hermes_crypto_lab.Forward.{World}
use hermes_crypto_lab.Forward.Tables.{
  ForwardTables, Window, active_ids, only, window_exists, window_at, has_window_link,
  has_incident_link, schedule_final_outcome, of_window,
}
use hermes_crypto_lab.Forward.Record.{
  claim, incident_at, incident_id_exists, record_forward_window, record_forward_window_once,
}
use hermes_crypto_lab.Forward.Rows.{Grows}
use hermes_crypto_lab.Forward.Steps.{ForwardStep, ForwardReach}
use hermes_crypto_lab.Forward.Claims.{holder_at, ForwardReach-holder_at}
use hermes_crypto_lab.Forward.Missed.{record_missed_windows}
use hermes_crypto_lab.Forward.Missed.Filed.{IsFiled}
use hermes_crypto_lab.Forward.Missed.Closes.{record_missed_windows-closes}
use hermes_crypto_lab.Forward.Failure.{
  Failure, commit_operational_failure, failure_result, failure_row,
}
use hermes_crypto_lab.Forward.Failure.Retry.{
  LeavesWindows, commit_operational_failure-LeavesWindows,
}
use hermes_crypto_lab.Forward.Failure.Closes.{commit_operational_failure-ClaimedAt}
use hermes_crypto_lab.Tests.Fixed.{fixed}
use hermes_crypto_lab.Tests.Runs.{setting, start}

abbrev pub no_rows : ForwardTables
no_rows = record {
  experiments = record { experiment_id = "e1"; started_at = 0; is_active = true } ∷ [];
  windows = [];
  experiment_windows = [];
  incidents = [];
  experiment_incidents = [];
  fill_runs = [];
}

abbrev pub world : World ℤ
world = record { system = start; forward = no_rows }

pub setting-IsSchedule : IsSchedule setting.schedule
setting-IsSchedule = record {
  weekday_in = omega arith;
  hour_in = omega arith;
  minute_in = omega arith;
  target_in = omega arith;
  window_in = (omega arith, omega arith);
}

-- Identifiers that differ: a text of as many letters.
unfoldable pub letters : ℕ → String
letters zero = empty_text
letters (suc n) = char_cons "i" (letters n)

unfoldable pub number_of : String → ℕ
number_of empty_text = 0
number_of (char_cons c s) = suc (number_of s)

pub number_of-letters : (n : ℕ) → number_of (letters n) ≡ n
unfolding number_of letters
number_of-letters zero = refl
number_of-letters (suc n) = rw (number_of-letters n) refl

pub letters_distinct : (j k : ℕ) → j ≢ k → letters j ≢ letters k
letters_distinct j k differ same =
    differ (rw (← number_of-letters j, same, number_of-letters k) refl)

pub one_active : active_ids no_rows.experiments ≡ "e1" ∷ []
unfolding active_ids
one_active = refl

pub no_rows-IsFiled : IsFiled setting.schedule setting-IsSchedule letters no_rows
unfolding has_window_link has_incident_link incident_at incident_id_exists
no_rows-IsFiled = record {
  linked = λ e k h. absurd (cc h);
  incident_linked = λ e i h. absurd (cc h);
  missed = λ k h. refl;
  free = λ k h. refl;
}

-- A day after the first window.
record_missed_windows-closes_example :
    (program : Program (World ℤ) ℕ) × (w' : World ℤ) × (created : ℕ) × (record_missed_windows
        setting.schedule letters
        (1440 * minute_ns)
        0
      ≡ some program)
    × (program world ≡ (w', ok created))
    × ((t : ℕ)
        → weekday t ≡ 0
        → normalize 0 ≤ t
        → (window_of setting.schedule setting-IsSchedule t).2 < 1440 * minute_ns
        → window_exists (start_of setting.schedule t) w'.forward.windows ≡ true)
    × Grows no_rows w'.forward
    × (w'.system ≡ start)
    × IsFiled setting.schedule setting-IsSchedule letters w'.forward
record_missed_windows-closes_example =
    record_missed_windows-closes setting.schedule setting-IsSchedule letters letters_distinct 0
      (1440 * minute_ns) world "e1" (ap only one_active) no_rows-IsFiled

abbrev held_window : Window
held_window = record {
  schedule_key = 5 * minute_ns;
  scheduled_for = 10 * minute_ns;
  run_id = some "r1";
  outcome = "PAPER_TRADE_COMPLETED";
  created_at = 11 * minute_ns;
}

abbrev held : ForwardTables
held = record no_rows { windows = held_window ∷ [] }

abbrev by_other : Window
by_other = record held_window { run_id = some "r2"; outcome = "EXECUTION_ERROR" }

abbrev after_other : ForwardTables
after_other = record held { experiment_windows = ("e1", 5 * minute_ns) ∷ [] }

recorded_by_other : record_forward_window by_other held ≡ ok after_other
unfolding record_forward_window record_forward_window_once active_ids window_exists has_window_link
    claim
recorded_by_other = refl

held_by_first : holder_at (5 * minute_ns) held ≡ some "r1"
unfolding window_at
held_by_first = refl

ForwardReach-holder_at_example : holder_at (5 * minute_ns) after_other ≡ some "r1"
ForwardReach-holder_at_example =
    ForwardReach-holder_at (5 * minute_ns) "r1" held after_other held_by_first
      (ForwardReach.next ForwardReach.here (ForwardStep.window by_other recorded_by_other))

abbrev pub failure : ErrorOutcome → Failure
failure outcome = record {
  run_id = "f1";
  incident_id = "i1";
  outcome = outcome;
  message = "";
  now = 10 * minute_ns;
  release_provenance = none;
  official_scheduled = false;
  retryable_admission_failure = false;
}

pub in_window : scheduled_key setting.schedule (10 * minute_ns) ≡ ok (some (5 * minute_ns))
unfolding scheduled_key schedule_timestamps target_offset_minutes weekday normalize
in_window = refl

pub no_window : holder_at (5 * minute_ns) no_rows ≡ none
unfolding window_at
no_window = refl

pub free_key : schedule_exists (5 * minute_ns) start.store ≡ false
unfolding key_exists
free_key = refl

pub admitted :
    insert_run setting.matches
      (failure_row (failure execution_error) (some (5 * minute_ns)) none)
      start.store
    ≡ ok (inserted (failure_row (failure execution_error) (some (5 * minute_ns)) none) start.store)
unfolding insert_run check_provenance run_exists key_exists mem_text
admitted = refl

pub free_id : incident_id_exists "i1" no_rows.incidents ≡ false
unfolding incident_id_exists
free_id = refl

commit_operational_failure-ClaimedAt_example :
    (w' : World ℤ) × (commit_operational_failure fixed setting (failure execution_error) world
      ≡ (w', ok (failure_result fixed setting (failure execution_error))))
    × (schedule_exists (5 * minute_ns) w'.system.store ≡ true)
    × (holder_at (5 * minute_ns) w'.forward ≡ some "f1")
    × (schedule_final_outcome (5 * minute_ns) w'.system.store w'.forward
        ≡ some (of_window "EXECUTION_ERROR"))
commit_operational_failure-ClaimedAt_example =
    commit_operational_failure-ClaimedAt fixed setting (failure execution_error) setting-IsSchedule
      world (5 * minute_ns) "e1"
      (inserted (failure_row (failure execution_error) (some (5 * minute_ns)) none) start.store)
      in_window refl free_key no_window admitted (ap only one_active) free_id

commit_operational_failure-LeavesWindows_example :
    LeavesWindows world
      (commit_operational_failure fixed setting (failure data_quality_failure) world).0
commit_operational_failure-LeavesWindows_example =
    commit_operational_failure-LeavesWindows fixed setting (failure data_quality_failure) world refl
