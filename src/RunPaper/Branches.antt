-- ===== src/RunPaper/Branches.antt =====
-- The branches of the weekly call of run_paper.py, gone through once for what holds of its answers.
use hermes_crypto_lab.Base.{
  Bool-cases, inl, inr, ℕ, ◌≡◌, refl, Option, none, some, Bool, true, false, not, ◌&&◌, ◌||◌,
  Result, ok, err, if◌then◌else◌, String, List, [], ◌∷◌,
}
use hermes_crypto_lab.Float.{FloatOps}
use hermes_crypto_lab.Schedule.{ScheduleConfig}
use hermes_crypto_lab.State.{Program, ◌>>=◌, returned, lift, read, then_run}
use hermes_crypto_lab.State.Keeps.{
  IsPreorder, Keeps, Keeps-bind, Keeps-returned, Keeps-lift, Keeps-read, Keeps-if,
}
use hermes_crypto_lab.Store.{
  release_provenance_failure, kill_switch_activated, Run, Provenance, is_active, schedule_exists,
}
use hermes_crypto_lab.PaperRun.{Setting}
use hermes_crypto_lab.Forward.{World, on_forward, filed}
use hermes_crypto_lab.Forward.Tables.{ForwardTables, forward_window_exists}
use hermes_crypto_lab.Forward.Missed.{
  record_missed_windows, scheduled_mondays, file_if_listed, file_listed, file_windows, file_window,
  file_by,
}
use hermes_crypto_lab.RunPaper.{
  failure, still_running, WeeklyCall, Exit, Captured, captured, refused, is_official, fail_with,
  missed_then, check_account, after_fetch, after_capture, proceed, is_taken, stopped, finalized,
  by_key, admit, weekly_call,
}

-- The account stays as it is.
abbrev pub SameSystem : {F : Type 0} → World F → World F → Type 0
SameSystem w w' = w'.system ≡ w.system

pub SameSystem-IsPreorder : {F : Type 0} → IsPreorder (SameSystem {F = F})
SameSystem-IsPreorder = record { rest = λ w. refl; on = λ u v w g h. rw h g }

module _ {F : Type 0} where
  abbrev pub Stays : {A : Type 0} → Program (World F) A → Type 0
  Stays act = Keeps SameSystem SameSystem-IsPreorder act

  bind :
      {A B : Type 0} (act : Program (World F) A) (next : A → Program (World F) B)
      → Stays act
      → ((x : A) → Stays (next x))
      → Stays (act >>= next)
  bind = Keeps-bind SameSystem SameSystem-IsPreorder

  on_forward-Stays :
      (operation : ForwardTables → Result ForwardTables) → Stays (on_forward operation)
  unfolding on_forward
  on_forward-Stays operation w = after (operation w.forward)
    where
      after : (o : Result ForwardTables) → SameSystem w (filed w o).0
      after (err e) = refl
      after (ok t) = refl

  module _ (experiment : String) (new_id : ℕ → String) (now : ℕ) where
    file_by-Stays : (k t : ℕ) (run : Option Run) → Stays (file_by experiment new_id now k t run)
    file_by-Stays k t none =
        bind _ _ (on_forward-Stays _) (λ x. Keeps-returned SameSystem SameSystem-IsPreorder 1)
    file_by-Stays k t (some r) = bind _ _ (Keeps-read SameSystem SameSystem-IsPreorder _) (λ fills.
        bind _ _ (on_forward-Stays _) (λ x. Keeps-returned SameSystem SameSystem-IsPreorder 0))

    file_windows-Stays : (due : List (ℕ × ℕ)) → Stays (file_windows experiment new_id now due)
    unfolding file_windows file_window
    file_windows-Stays [] = Keeps-returned SameSystem SameSystem-IsPreorder 0
    file_windows-Stays ((k, t) ∷ due) =
        bind _ _
          (bind _ _ (Keeps-read SameSystem SameSystem-IsPreorder _) (λ seen.
            Keeps-if SameSystem SameSystem-IsPreorder seen _ _
              (Keeps-returned SameSystem SameSystem-IsPreorder 0)
              (bind _ _ (Keeps-read SameSystem SameSystem-IsPreorder _) (file_by-Stays k t))))
          (λ created.
            bind _ _ (file_windows-Stays due)
              (λ rest. Keeps-returned SameSystem SameSystem-IsPreorder _))

  -- What the recording of missed windows does to the account, whether it returns or raises.
  pub listed-Stays :
      (c : ScheduleConfig) (new_id : ℕ → String) (now : ℕ) (windows : Result (List (ℕ × ℕ)))
      → Stays (file_listed c new_id now windows)
  listed-Stays c new_id now windows = bind _ _ (Keeps-read SameSystem SameSystem-IsPreorder _) (λ e.
      bind _ _ (Keeps-lift SameSystem SameSystem-IsPreorder e) (λ id.
        bind _ _ (Keeps-lift SameSystem SameSystem-IsPreorder windows)
          (file_windows-Stays id new_id now)))

module _ (fl : FloatOps) (setting : Setting fl) (call : WeeklyCall) where
  open fl use {F}

  -- What holds of the state that the call stops in, of its failures and of what follows the retrieval.
  pub record HoldsAt (w : World F) (Q : World F × Result (Exit F) → Type 0) : Type 0 where
    pub stops : (r : Result (Exit F)) → Q (w, r)
    pub refusals :
        (message : String) (retryable : Bool) (key : Option ℕ) (code : ℕ)
        → call.capture ≡ refused message retryable
        → Q (
            fail_with fl setting call
              (failure fl setting call release_provenance_failure message retryable none key)
              code
              w)
    pub halts :
        (message : String) (p : Option Provenance) (key : Option ℕ)
        → is_active w.system.store.account_status ≡ false
        → Q (
            fail_with fl setting call
              (failure fl setting call kill_switch_activated message false p key)
              2
              w)
    pub fetches :
        (key deadline : Option ℕ) (p : Option Provenance)
        → Q (after_fetch fl setting call key deadline p call.fetch w)

  module _ (w : World F) (Q : World F × Result (Exit F) → Type 0) (holds : HoldsAt w Q) where
    lift-bind :
        {A : Type 0} (r : Result A) (next : A → Program (World F) (Exit F))
        → ((x : A) → Q (next x w))
        → Q ((lift r >>= next) w)
    unfolding ◌>>=◌ lift
    lift-bind (err e) next h = holds.stops (err e)
    lift-bind (ok x) next h = h x

    read-bind :
        {A : Type 0} (f : World F → A) (next : A → Program (World F) (Exit F))
        → Q (next (f w) w)
        → Q ((read f >>= next) w)
    unfolding ◌>>=◌ read
    read-bind f next h = h

    if-both :
        (b : Bool) (act other : Program (World F) (Exit F))
        → Q (act w)
        → Q (other w)
        → Q ((if b then act else other) w)
    if-both true act other h k = h
    if-both false act other h k = k

    stop : (x : Exit F) → Q (returned x w)
    unfolding returned
    stop x = holds.stops (ok x)

    check_account-holds :
        (key deadline : Option ℕ) (p : Option Provenance)
        → Q (check_account fl setting call key deadline p w)
    unfolding check_account
    check_account-holds key deadline p =
        read-bind _ _ (elim (Bool-cases (is_active w.system.store.account_status)) [
          | inl active ↦ rw active (holds.fetches key deadline p)
          | inr halted ↦ rw halted (holds.halts _ p key halted)
        ])

    after_capture-holds :
        (key deadline : Option ℕ) (c : Captured)
        → call.capture ≡ c
        → Q (after_capture fl setting call key deadline c w)
    after_capture-holds key deadline (captured p) e = check_account-holds key deadline (some p)
    after_capture-holds key deadline (refused m r) e = holds.refusals m r key _ e

    proceed-holds : (key deadline : Option ℕ) → Q (proceed fl setting call key deadline w)
    proceed-holds key deadline =
        if-both (is_official fl setting call key) _ _
          (after_capture-holds key deadline call.capture refl)
          (check_account-holds key deadline none)

    finalized-holds : (key : ℕ) → Q (finalized fl setting call key w)
    unfolding finalized
    finalized-holds key = read-bind _ _ (stop _)

    by_key-holds : (key deadline : Option ℕ) → Q (by_key fl setting call key deadline w)
    by_key-holds none deadline = lift-bind _ _ (λ latest. read-bind _ _ (
        if-both (forward_window_exists latest w.forward || schedule_exists latest w.system.store)
          (returned (stopped "DUPLICATE_SCHEDULE")) (proceed fl setting call none deadline)
          (stop (stopped "DUPLICATE_SCHEDULE")) (proceed-holds none deadline)))
    by_key-holds (some key) deadline = read-bind _ _ (
        if-both (not call.dry_run && is_taken fl setting call key w) (finalized fl setting call key)
          (proceed fl setting call (some key) deadline) (finalized-holds key)
          (proceed-holds (some key) deadline))

    admit-holds : Q (admit fl setting call w)
    unfolding admit
    admit-holds = lift-bind _ _ (λ key. lift-bind _ _ (λ deadline. lift-bind _ _ (λ closed.
        if-both closed (returned (stopped "MISSED_SCHEDULE")) (by_key fl setting call key deadline)
          (stop (stopped "MISSED_SCHEDULE")) (by_key-holds key deadline))))

  -- A weekly call records missed windows, which leaves the account, and then goes through its
  -- branches.
  pub weekly_call-holds :
      (w : World F) (Q : World F × Result (Exit F) → Type 0)
      → ((w1 : World F) → w1.system ≡ w.system → HoldsAt w1 Q)
      → Q (weekly_call fl setting call w)
  unfolding weekly_call record_missed_windows ◌>>=◌ returned
  weekly_call-holds w Q holds = by_list (scheduled_mondays setting.schedule call.start call.now)
    where
      after :
          (o : World F × Result ℕ) → SameSystem w o.0 → Q (then_run o (λ x. admit fl setting call))
      after (w1, err e) same = (holds w1 same).stops (err e)
      after (w1, ok n) same = admit-holds w1 Q (holds w1 same)

      by_list :
          (windows : Option (Result (List (ℕ × ℕ))))
          → Q (
              missed_then fl setting call
                (file_if_listed setting.schedule call.new_id call.now windows)
                (admit fl setting call)
                w)
      by_list none = (holds w refl).stops (ok still_running)
      by_list (some windows) =
          after _ (listed-Stays setting.schedule call.new_id call.now windows w)
