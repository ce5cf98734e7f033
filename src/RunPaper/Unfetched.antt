-- ===== src/RunPaper/Unfetched.antt =====
-- The weekly call of run_paper.py without market data.
use hermes_crypto_lab.Base.{ℕ, ◌≡◌, ◌≢◌, refl, Option, none, Bool, true, false, String}
use hermes_crypto_lab.Float.{FloatOps}
use hermes_crypto_lab.State.Keeps.{IsPreorder, Keeps-bind, Keeps-returned}
use hermes_crypto_lab.Store.{release_provenance_failure, Provenance, is_active, schedule_exists}
use hermes_crypto_lab.PaperRun.{Setting}
use hermes_crypto_lab.Forward.{World}
use hermes_crypto_lab.Forward.Failure.{Failure, is_retryable}
use hermes_crypto_lab.Forward.Failure.Quiet.{commit_operational_failure-Quiet}
use hermes_crypto_lab.Forward.Failure.Retry.{commit_operational_failure-LeavesWindows}
use hermes_crypto_lab.RunPaper.Branches.{weekly_call-holds}
use hermes_crypto_lab.RunPaper.{
  failure, WeeklyCall, refused, Fetched, unfetched, fetched, fail_with, after_fetch, weekly_call,
}

-- The same windows are held by runs, and nothing was traded.
pub record Unclaimed {F : Type 0} (w w' : World F) : Type 0 where
  pub books : w'.system.books ≡ w.system.books
  pub keys : (k : ℕ) → schedule_exists k w'.system.store ≡ schedule_exists k w.system.store

Unclaimed-IsPreorder : {F : Type 0} → IsPreorder (Unclaimed {F = F})
Unclaimed-IsPreorder = record {
  rest = λ w. record { books = refl; keys = λ k. refl };
  on = λ u v w g h. record { books = rw h.books g.books; keys = λ k. rw h.keys (g.keys k) };
}

module _ (fl : FloatOps) (setting : Setting fl) (call : WeeklyCall) where
  open fl use {F}

  fail_with-Unclaimed :
      (f : Failure) (code : ℕ) (w : World F)
      → is_retryable f.outcome f.retryable_admission_failure ≡ true
      → Unclaimed w (fail_with fl setting call f code w).0
  unfolding fail_with
  fail_with-Unclaimed f code w retryable =
      Keeps-bind Unclaimed Unclaimed-IsPreorder _ _
        (λ s. record {
          books = (commit_operational_failure-Quiet fl setting f s).books;
          keys = (commit_operational_failure-LeavesWindows fl setting f s retryable).keys;
        })
        (λ x. Keeps-returned Unclaimed Unclaimed-IsPreorder _) w

  -- A weekly call whose market data cannot be fetched, with an active account, where a provenance
  -- of the release that is refused may be tried again: whether it returns or raises, it has traded
  -- nothing, and the schedule's windows are held by runs as before.
  pub weekly_call-Unclaimed :
      (w : World F) (reason : String) (transient : Bool)
      → call.fetch ≡ unfetched reason transient
      → ((m : String) → call.capture ≢ refused m false)
      → is_active w.system.store.account_status ≡ true
      → Unclaimed w (weekly_call fl setting call w).0
  weekly_call-Unclaimed w reason transient no_market may_retry active =
      weekly_call-holds fl setting call w (λ o. Unclaimed w o.0)
        (λ w1 same. record {
          stops = λ r. record { books = rw same refl; keys = λ k. rw same refl };
          refusals = λ m retryable key code e. refusal w1 same m retryable key code e;
          halts = λ m p key halted. absurd (cc (active, same, halted));
          fetches = λ key deadline p. fetch w1 same key deadline p call.fetch refl;
        })
    where
      shifted :
          (w1 : World F) → w1.system ≡ w.system → (w2 : World F) → Unclaimed w1 w2 → Unclaimed w w2
      shifted w1 same w2 u = record {
        books = rw (u.books, same) refl;
        keys = λ k. rw (u.keys k, same) refl;
      }

      refusal :
          (w1 : World F)
          → w1.system ≡ w.system
          → (m : String) (retryable : Bool) (key : Option ℕ) (code : ℕ)
          → call.capture ≡ refused m retryable
          → Unclaimed w
              (fail_with fl setting call
                (failure fl setting call release_provenance_failure m retryable none key)
                code
                w1).0
      refusal w1 same m true key code e = shifted w1 same _ (fail_with-Unclaimed _ code w1 refl)
      refusal w1 same m false key code e = absurd (may_retry m e)

      fetch :
          (w1 : World F)
          → w1.system ≡ w.system
          → (key deadline : Option ℕ) (p : Option Provenance) (f : Fetched) → call.fetch ≡ f
          → Unclaimed w (after_fetch fl setting call key deadline p f w1).0
      fetch w1 same key deadline p (unfetched m t) e =
          shifted w1 same _ (fail_with-Unclaimed _ _ w1 refl)
      fetch w1 same key deadline p (fetched now) e = absurd (cc (e, no_market))
