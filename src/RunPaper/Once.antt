-- ===== src/RunPaper/Once.antt =====
-- Two weekly calls of run_paper.py in one window of the schedule.
use hermes_crypto_lab.Base.{
  ℕ, ◌≡◌, ◌≢◌, ◌⊎◌, refl, Option, none, some, List, Result, inl, inr, Bool-cases,
}
use hermes_crypto_lab.Float.{FloatOps}
use hermes_crypto_lab.Schedule.{scheduled_key}
use hermes_crypto_lab.State.{returned}
use hermes_crypto_lab.State.Keeps.{Keeps-bind, Keeps-returned}
use hermes_crypto_lab.Broker.Proposals.Tables.{SameTables, SameTables-refl}
use hermes_crypto_lab.Store.{Provenance}
use hermes_crypto_lab.Store.Steps.{Reach}
use hermes_crypto_lab.Store.Keys.{IsKeyed}
use hermes_crypto_lab.PaperRun.{Setting, Request, run}
use hermes_crypto_lab.PaperRun.Window.{run-Reach}
use hermes_crypto_lab.PaperRun.Once.{run_once}
use hermes_crypto_lab.Forward.{World}
use hermes_crypto_lab.Forward.Missed.{record_missed_windows, scheduled_mondays, file_if_listed}
use hermes_crypto_lab.Forward.Failure.{Failure}
use hermes_crypto_lab.Forward.Failure.Quiet.{
  Quiet, Quiet-IsPreorder, commit_operational_failure-Quiet,
}
use hermes_crypto_lab.RunPaper.{
  WeeklyCall, Exit, Fetched, fetched, fail_with, missed_then, is_late, after_fetch, weekly_call,
}
use hermes_crypto_lab.RunPaper.Branches.{
  SameSystem, SameSystem-IsPreorder, listed-Stays, weekly_call-holds,
}

module _ (fl : FloatOps) (setting : Setting fl) where
  open fl use {F}

  -- The store moves by its operations, and the books are as before or those of one run that began
  -- at an instant.
  record RunsOnce (t : ℕ) (w w' : World F) : Type 0 where
    store : Reach w.system.store w'.system.store
    books :
        (w'.system.books ≡ w.system.books)
        ⊎ ((req : Request) × (req.now ≡ t) × (w'.system ≡ (run fl setting req w.system).0))

module _ (fl : FloatOps) (setting : Setting fl) (call : WeeklyCall) where
  open fl use {F}

  unmoved : (t : ℕ) (w w1 : World F) → w1.system ≡ w.system → RunsOnce fl setting t w w1
  unmoved t w w1 same = record { store = rw same Reach.here; books = inl (rw same refl) }

  Quiet-RunsOnce :
      (t : ℕ) (w w1 v : World F) → w1.system ≡ w.system → Quiet w1 v → RunsOnce fl setting t w v
  Quiet-RunsOnce t w w1 v same q = record {
    store = rw same at q.store;
    books = inl (rw (q.books, same) refl);
  }

  fail_with-RunsOnce :
      (t : ℕ) (w w1 : World F)
      → w1.system ≡ w.system
      → (f : Failure) (code : ℕ) → RunsOnce fl setting t w (fail_with fl setting call f code w1).0
  unfolding fail_with
  fail_with-RunsOnce t w w1 same f code =
      let q : Quiet w1 (fail_with fl setting call f code w1).0 =
        Keeps-bind Quiet Quiet-IsPreorder _ _ (commit_operational_failure-Quiet fl setting f)
          (λ x. Keeps-returned Quiet Quiet-IsPreorder _) w1 in
      Quiet-RunsOnce t w w1 _ same q

  missed_then-same :
      (now : ℕ) (x : Exit F) (w : World F)
      → SameSystem w
          (missed_then fl setting call
            (record_missed_windows setting.schedule call.later_id now call.start)
            (returned x)
            w).0
  unfolding record_missed_windows
  missed_then-same now x w = by_list (scheduled_mondays setting.schedule call.start now)
    where
      by_list :
          (windows : Option (Result (List (ℕ × ℕ))))
          → SameSystem w
              (missed_then fl setting call
                (file_if_listed setting.schedule call.later_id now windows)
                (returned x)
                w).0
      by_list none = Keeps-returned SameSystem SameSystem-IsPreorder _ w
      by_list (some windows) =
          Keeps-bind SameSystem SameSystem-IsPreorder _ _
            (listed-Stays setting.schedule call.later_id now windows)
            (λ n. Keeps-returned SameSystem SameSystem-IsPreorder x) w

  after_fetch-RunsOnce :
      (t : ℕ) (w w1 : World F)
      → w1.system ≡ w.system
      → (key deadline : Option ℕ) (p : Option Provenance)
      → RunsOnce fl setting t w (after_fetch fl setting call key deadline p (fetched t) w1).0
  after_fetch-RunsOnce t w w1 same key deadline p =
      elim (Bool-cases (is_late fl setting call deadline t)) [
        | inl late ↦ rw late (unmoved t w _ (rw (missed_then-same t _ w1) same))
        | inr in_time ↦
            rw (in_time, same)
              (record { store = run-Reach fl setting _ w.system; books = inr (_, refl, refl) })
      ]

  weekly_call-RunsOnce :
      (t : ℕ) (w : World F)
      → call.fetch ≡ fetched t
      → RunsOnce fl setting t w (weekly_call fl setting call w).0
  weekly_call-RunsOnce t w market =
      weekly_call-holds fl setting call w (λ o. RunsOnce fl setting t w o.0)
        (λ w1 same. record {
          stops = λ r. unmoved t w w1 same;
          refusals = λ m retryable key code e. fail_with-RunsOnce t w w1 same _ code;
          halts = λ m p key halted. fail_with-RunsOnce t w w1 same _ 2;
          fetches = λ key deadline p. fetched_at call.fetch market w1 same key deadline p;
        })
    where
      fetched_at :
          (f : Fetched)
          → f ≡ fetched t
          → (w1 : World F) → w1.system ≡ w.system
          → (key deadline : Option ℕ) (p : Option Provenance)
          → RunsOnce fl setting t w (after_fetch fl setting call key deadline p f w1).0
      fetched_at f e w1 same key deadline p = rw e (after_fetch-RunsOnce t w w1 same key deadline p)

module _ (fl : FloatOps) (setting : Setting fl) where
  open fl use {F}

  -- When a weekly call has changed the table of orders, from a store of distinct runs and schedule
  -- keys: for every store that operations, recoveries after a crash among them, lead to from the
  -- one it left, a weekly call whose market data arrive in the same window of the schedule leaves
  -- the tables of the books as they were, and moves the store by its operations only.
  pub weekly_call-once :
      (call call' : WeeklyCall) (w u : World F) (t t' : ℕ)
      → call.fetch ≡ fetched t
      → call'.fetch ≡ fetched t'
      → scheduled_key setting.schedule t' ≡ scheduled_key setting.schedule t
      → IsKeyed w.system.store
      → (weekly_call fl setting call w).0.system.books.orders ≢ w.system.books.orders
      → Reach (weekly_call fl setting call w).0.system.store u.system.store
      → SameTables u.system.books (weekly_call fl setting call' u).0.system.books
        × Reach u.system.store (weekly_call fl setting call' u).0.system.store
  weekly_call-once call call' w u t t' market market' same keyed traded reach =
      let first = weekly_call-RunsOnce fl setting call t w market in
      let later = weekly_call-RunsOnce fl setting call' t' u market' in
      (
        elim later.books [
          | inl quiet ↦ rw quiet (SameTables-refl u.system.books)
          | inr (req', at', ran') ↦ elim first.books [
            | inl quiet ↦ absurd (traded (rw quiet refl))
            | inr (req, at1, ran) ↦ rw ran' (
                run_once fl setting req req' w.system u.system keyed (rw ran at traded)
                  (rw ran at reach) (rw (at', at1) same))
          ]
        ],
        later.store,
      )
