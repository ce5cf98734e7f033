-- ===== src/Forward/Failure/Retry.antt =====
-- `commit_operational_failure` of src/paper_forward.py where the failure may be tried again, which
-- writes the attempt alone.
use text.Mathlib.Text.{◌==◌ as str_eq}
use hermes_crypto_lab.Base.{
  ℕ, ◌≡◌, refl, String, Option, none, true, List, [], ◌∷◌, ◌&&◌, Result, ok, err, ok_eq, Bool-cases,
  inl, inr,
}
use hermes_crypto_lab.Float.{FloatOps}
use hermes_crypto_lab.State.{Program, ◌>>=◌}
use hermes_crypto_lab.State.Keeps.{
  IsPreorder, Keeps, Keeps-bind, Keeps-returned, Keeps-lift, Keeps-read, Keeps-if,
}
use hermes_crypto_lab.Store.{
  Run, Store, failed, is_active, key_exists, schedule_exists, insert_run, update_run,
  activate_kill_switch,
}
use hermes_crypto_lab.Store.Steps.{insert_run-passed, runs-finish_run}
use hermes_crypto_lab.PaperRun.{Setting}
use hermes_crypto_lab.PaperRun.Act.{on_store, stored}
use hermes_crypto_lab.Forward.{World, in_system, placed}
use hermes_crypto_lab.Forward.Failure.{
  Failure, is_retryable, is_halting, failure_row, halt_account, write_run, commit_failure,
  commit_operational_failure,
}

-- The same windows are taken, and the tables of the experiment are as they were.
pub record LeavesWindows {F : Type 0} (w w' : World F) : Type 0 where
  pub forward : w'.forward ≡ w.forward
  pub keys : (k : ℕ) → schedule_exists k w'.system.store ≡ schedule_exists k w.system.store

LeavesWindows-IsPreorder : {F : Type 0} → IsPreorder (LeavesWindows {F = F})
LeavesWindows-IsPreorder = record {
  rest = λ w. record { forward = refl; keys = λ k. refl };
  on = λ u v w g h. record { forward = rw h.forward g.forward; keys = λ k. rw h.keys (g.keys k) };
}

pub key_exists-update_run :
    (k : ℕ) (id : String) (f : Run → Run) (rs : List Run)
    → ((r : Run) → (f r).schedule_key ≡ r.schedule_key)
    → key_exists k (update_run id f rs) ≡ key_exists k rs
unfolding key_exists update_run
key_exists-update_run k id f [] h = refl
key_exists-update_run k id f (r ∷ rs) h = elim (Bool-cases (str_eq r.run_id id)) [
  | inl same ↦ rw (same, h r, key_exists-update_run k id f rs h) refl
  | inr other ↦ rw (other, key_exists-update_run k id f rs h) refl
]

pub runs-halt_account : (f : Failure) (s : Store) → (halt_account f s).runs ≡ s.runs
unfolding halt_account activate_kill_switch
runs-halt_account f s = elim (Bool-cases (is_halting f.outcome && is_active s.account_status)) [
  | inl halts ↦ rw halts refl
  | inr stays ↦ rw stays refl
]

module _ {F : Type 0} where
  abbrev Leaves : {A : Type 0} → Program (World F) A → Type 0
  Leaves act = Keeps LeavesWindows LeavesWindows-IsPreorder act

  in_store-Leaves :
      (operation : Store → Result Store)
      → ((s s' : Store)
          → operation s ≡ ok s'
          → (k : ℕ) → key_exists k s'.runs ≡ key_exists k s.runs)
      → Leaves (in_system (on_store operation))
  unfolding in_system on_store
  in_store-Leaves operation step w = after (operation w.system.store) (step w.system.store)
    where
      after :
          (o : Result Store)
          → ((s' : Store)
              → o ≡ ok s'
              → (k : ℕ) → key_exists k s'.runs ≡ key_exists k w.system.store.runs)
          → LeavesWindows w (placed w (stored w.system o)).0
      after (err e) h = LeavesWindows-IsPreorder.rest w
      after (ok s') h = record { forward = refl; keys = h s' refl }

module _ (fl : FloatOps) (setting : Setting fl) (f : Failure) where
  open fl use {F}

  bind :
      {A B : Type 0} (act : Program (World F) A) (next : A → Program (World F) B)
      → Leaves act
      → ((x : A) → Leaves (next x))
      → Leaves (act >>= next)
  bind = Keeps-bind LeavesWindows LeavesWindows-IsPreorder

  insert-keys :
      (attempted : Option ℕ) (s s' : Store)
      → insert_run setting.matches (failure_row f none attempted) s ≡ ok s'
      → (k : ℕ) → key_exists k s'.runs ≡ key_exists k s.runs
  unfolding key_exists
  insert-keys attempted s s' e k =
      rw (insert_run-passed setting.matches (failure_row f none attempted) s s' e).2 refl

  write_run-Leaves : (attempted : Option ℕ) → Leaves (write_run fl setting f none attempted)
  unfolding write_run
  write_run-Leaves attempted = bind _ _ (Keeps-read LeavesWindows LeavesWindows-IsPreorder _) (λ r.
      bind _ _ (in_store-Leaves _ (insert-keys attempted)) (λ x.
        bind _ _
          (in_store-Leaves _
            (λ s s' e k. rw (← ok_eq (halt_account f s) s' e, runs-halt_account f s) refl))
          (λ y. in_store-Leaves _ (λ s s' e k.
            rw (runs-finish_run f.run_id (failed f.outcome) f.now f.message r none s s' e)
              (key_exists-update_run k f.run_id _ s.runs (λ row. refl))))))

  -- A failure that may be tried again, such as one of the market data, leaves the tables of the
  -- forward experiment as they were and takes no window of the schedule: whether it returns or
  -- raises, a window is held by a run after it exactly when it was before.
  pub commit_operational_failure-LeavesWindows :
      (w : World F)
      → is_retryable f.outcome f.retryable_admission_failure ≡ true
      → LeavesWindows w (commit_operational_failure fl setting f w).0
  unfolding commit_operational_failure commit_failure
  commit_operational_failure-LeavesWindows w retryable =
      bind _ _ (Keeps-lift LeavesWindows LeavesWindows-IsPreorder _)
        (λ key. rw retryable (
          bind _ _ (Keeps-read LeavesWindows LeavesWindows-IsPreorder _) (λ held.
            Keeps-if LeavesWindows LeavesWindows-IsPreorder held _ _
              (Keeps-returned LeavesWindows LeavesWindows-IsPreorder _)
              (bind _ _ (write_run-Leaves key) (λ x.
                bind _ _ (Keeps-returned LeavesWindows LeavesWindows-IsPreorder _) (λ at.
                  bind _ _ (Keeps-returned LeavesWindows LeavesWindows-IsPreorder _)
                    (λ y. Keeps-returned LeavesWindows LeavesWindows-IsPreorder _)))))))
        w
