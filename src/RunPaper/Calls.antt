-- ===== src/RunPaper/Calls.antt =====
-- A weekly call of run_paper.py: what it is given, how it ends, and the helpers on the schedule and on
-- the outcomes.
use hermes_crypto_lab.Base
use hermes_crypto_lab.Base.{
  ℕ, ◌+◌, ◌-◌, ◌*◌, ◌%◌, String, Option, none, some, Bool, true, false, not, ◌&&◌, ◌||◌, List, [],
  ◌∷◌, ◌==◌, ltb, if◌then◌else◌, is_some, Result, ok, err, length, zero, suc,
}
use hermes_crypto_lab.Time.{aware, day_ns, normalize, weekday}
use hermes_crypto_lab.Schedule.{ScheduleConfig, schedule_timestamps, schedule_window_end}
use hermes_crypto_lab.Store.{failed, Provenance, mem_text}
use hermes_crypto_lab.PaperRun.{PaperRunResult}
use hermes_crypto_lab.Forward.Tables.{FinalOutcome, of_window, of_status, text_of}

-- `_current_schedule_window_closed`
unfoldable pub current_window_closed : ScheduleConfig → ℕ → Result Bool
current_window_closed config now =
    Base.◌>>=◌ (schedule_timestamps config (aware now))
      (λ (start, target, end). ok (weekday now == config.schedule_weekday && ltb end now))

-- `_schedule_window_deadline`
abbrev pub window_deadline : ScheduleConfig → Option ℕ → Result (Option ℕ)
window_deadline config none = ok none
window_deadline config (some key) =
    Base.◌>>=◌ (schedule_window_end config (aware key)) (λ end. ok (some end))

abbrev pub start_on : ScheduleConfig → ℕ → Result ℕ
start_on config day =
    Base.◌>>=◌ (schedule_timestamps config (aware day)) (λ (start, target, end). ok start)

-- `_latest_schedule_key`; Python's `%` is not negative, so 7 is added first.
unfoldable pub latest_schedule_key : ScheduleConfig → ℕ → Result ℕ
latest_schedule_key config now =
    let since = (weekday now + 7 - config.schedule_weekday) % 7 in
    let day = normalize now - since * day_ns in
    Base.◌>>=◌ (start_on config day)
      (λ start. if ltb now start then start_on config (day - 7 * day_ns) else ok start)

-- What `capture_release_provenance` and `fetch_configured_public_market_snapshot` answer: a value,
-- or an exception and whether it is of the class that may be tried again.
pub data Captured : Type 0 where
  captured : Provenance → Captured
  refused : (message : String) → (retryable : Bool) → Captured

pub data Fetched : Type 0 where
  fetched : (execution_now : ℕ) → Fetched
  unfetched : (reason : String) → (transient : Bool) → Fetched

pub record WeeklyCall : Type 0 where
  pub dry_run : Bool
  pub start : ℕ
  pub now : ℕ
  pub capture : Captured
  pub fetch : Fetched
  pub run_id : String
  pub incident_id : String
  -- for the windows that are missed at the start and during the retrieval
  pub new_id : ℕ → String
  pub later_id : ℕ → String

-- How the call ends: it prints a status and returns, it exits with a code, or it has run. A loop that
-- has run out of fuel is the last.
pub data Exit (F : Type 0) : Type 0 where
  stopped : String → Exit F
  exit_code : ℕ → Exit F
  ran : PaperRunResult F → Exit F
  still_running : Exit F

-- The outcomes for which a finalized window is an error.
abbrev pub fatal_outcomes : List String
fatal_outcomes =
    "RELEASE_PROVENANCE_FAILURE" ∷ "RECONCILIATION_FAILURE" ∷ "KILL_SWITCH_ACTIVATED"
    ∷ "EXECUTION_ERROR" ∷ []

abbrev pub is_fatal : Option FinalOutcome → Bool
is_fatal (some (of_window text)) = mem_text text fatal_outcomes
is_fatal (some (of_status (failed e))) = mem_text (text_of e) fatal_outcomes
is_fatal _ = false

abbrev pub copies : ℕ → String → List String → List String
copies zero id rest = rest
copies (suc n) id rest = id ∷ copies n id rest
