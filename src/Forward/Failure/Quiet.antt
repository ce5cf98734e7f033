-- ===== src/Forward/Failure/Quiet.antt =====
-- What `commit_operational_failure` of src/paper_forward.py may change.
use hermes_crypto_lab.Base.{
  ℕ, ◌≡◌, refl, Option, none, some, Bool, true, false, Result, ok, err, ok_eq, Bool-cases, inl, inr,
  ◌&&◌,
}
use hermes_crypto_lab.Float.{FloatOps}
use hermes_crypto_lab.State.{Program, ◌>>=◌}
use hermes_crypto_lab.State.Keeps.{
  IsPreorder, Keeps, Keeps-bind, Keeps-returned, Keeps-lift, Keeps-read, Keeps-if,
}
use hermes_crypto_lab.Store.{Store, failed, is_active}
use hermes_crypto_lab.Store.Steps.{StoreStep, Reach, Reach-step, Reach-trans}
use hermes_crypto_lab.PaperRun.{Setting}
use hermes_crypto_lab.PaperRun.Act.{on_store, stored}
use hermes_crypto_lab.Forward.{World, in_system, on_forward, placed, filed}
use hermes_crypto_lab.Forward.Tables.{ForwardTables}
use hermes_crypto_lab.Forward.Steps.{ForwardStep, ForwardReach, ForwardReach-trans}
use hermes_crypto_lab.Forward.Failure.{
  Failure, is_halting, halt_account, file_window, file_incident, write_run, commit_failure,
  unless_held, commit_operational_failure,
}

-- The store and the tables of the experiment move by their operations; the books stay.
pub record Quiet {F : Type 0} (w w' : World F) : Type 0 where
  pub store : Reach w.system.store w'.system.store
  pub forward : ForwardReach w.forward w'.forward
  pub books : w'.system.books ≡ w.system.books

pub Quiet-IsPreorder : {F : Type 0} → IsPreorder (Quiet {F = F})
Quiet-IsPreorder = record {
  rest = λ w. record { store = Reach.here; forward = ForwardReach.here; books = refl };
  on = λ u v w g h. record {
    store = Reach-trans _ _ _ g.store h.store;
    forward = ForwardReach-trans _ _ _ g.forward h.forward;
    books = rw h.books g.books;
  };
}

module _ {F : Type 0} where
  abbrev pub IsQuiet : {A : Type 0} → Program (World F) A → Type 0
  IsQuiet act = Keeps Quiet Quiet-IsPreorder act

  in_store-IsQuiet :
      (operation : Store → Result Store)
      → ((s s' : Store) → operation s ≡ ok s' → Reach s s')
      → IsQuiet (in_system (on_store operation))
  unfolding in_system on_store
  in_store-IsQuiet operation step w = after (operation w.system.store) (step w.system.store)
    where
      after :
          (o : Result Store)
          → ((s' : Store) → o ≡ ok s' → Reach w.system.store s')
          → Quiet w (placed w (stored w.system o)).0
      after (err e) h = Quiet-IsPreorder.rest w
      after (ok s') h = record { store = h s' refl; forward = ForwardReach.here; books = refl }

  on_forward-IsQuiet :
      (operation : ForwardTables → Result ForwardTables)
      → ((t t' : ForwardTables) → operation t ≡ ok t' → ForwardStep t t')
      → IsQuiet (on_forward operation)
  unfolding on_forward
  on_forward-IsQuiet operation step w = after (operation w.forward) (step w.forward)
    where
      after :
          (o : Result ForwardTables)
          → ((t' : ForwardTables) → o ≡ ok t' → ForwardStep w.forward t')
          → Quiet w (filed w o).0
      after (err e) h = Quiet-IsPreorder.rest w
      after (ok t') h = record {
        store = Reach.here;
        forward = ForwardReach.next ForwardReach.here (h t' refl);
        books = refl;
      }

module _ (fl : FloatOps) (setting : Setting fl) (f : Failure) where
  open fl use {F}

  halt_account-Reach : (s : Store) → Reach s (halt_account f s)
  unfolding halt_account
  halt_account-Reach s = elim (Bool-cases (is_halting f.outcome && is_active s.account_status)) [
    | inl halts ↦ rw halts (Reach-step s _ (StoreStep.halt f.message (some f.run_id) refl))
    | inr stays ↦ rw stays Reach.here
  ]

  bind :
      {A B : Type 0} (act : Program (World F) A) (next : A → Program (World F) B)
      → IsQuiet act
      → ((x : A) → IsQuiet (next x))
      → IsQuiet (act >>= next)
  bind = Keeps-bind Quiet Quiet-IsPreorder

  write_run-IsQuiet : (own attempted : Option ℕ) → IsQuiet (write_run fl setting f own attempted)
  unfolding write_run
  write_run-IsQuiet own attempted = bind _ _ (Keeps-read Quiet Quiet-IsPreorder _) (λ r.
      bind _ _
        (in_store-IsQuiet _ (λ s s' e. Reach-step s s' (StoreStep.insert setting.matches _ e)))
        (λ x.
          bind _ _
            (in_store-IsQuiet _ (λ s s' e. reached s s' (ok_eq _ _ e) (halt_account-Reach s)))
            (λ y. in_store-IsQuiet _ (λ s s' e.
              Reach-step s s'
                (StoreStep.finish f.run_id (failed f.outcome) f.now f.message r none e)))))
    where
      reached : (s s' : Store) → halt_account f s ≡ s' → Reach s (halt_account f s) → Reach s s'
      reached s s' e r = rw (← e) r

  file_window-IsQuiet : (own : Option ℕ) → IsQuiet (file_window fl setting f own)
  file_window-IsQuiet none = Keeps-returned Quiet Quiet-IsPreorder none
  file_window-IsQuiet (some key) = bind _ _ (Keeps-lift Quiet Quiet-IsPreorder _) (λ target.
      bind _ _ (on_forward-IsQuiet _ (λ t t' e. ForwardStep.window _ e))
        (λ x. Keeps-returned Quiet Quiet-IsPreorder _))

  file_incident-IsQuiet :
      (retryable : Bool) (at : Option ℕ) → IsQuiet (file_incident fl setting f retryable at)
  file_incident-IsQuiet true at = Keeps-returned Quiet Quiet-IsPreorder tt
  file_incident-IsQuiet false at = on_forward-IsQuiet _ (λ t t' e. ForwardStep.incident _ e)

  unless_held-IsQuiet :
      (own attempted : Option ℕ) → IsQuiet (unless_held fl setting f own attempted)
  unfolding commit_failure
  unless_held-IsQuiet own attempted = bind _ _ (Keeps-read Quiet Quiet-IsPreorder _) (λ held.
      Keeps-if Quiet Quiet-IsPreorder held _ _ (Keeps-returned Quiet Quiet-IsPreorder _) (
        bind _ _ (write_run-IsQuiet own attempted) (λ x. bind _ _ (file_window-IsQuiet own) (λ at.
          bind _ _ (file_incident-IsQuiet _ at) (λ y. Keeps-returned Quiet Quiet-IsPreorder _)))))

  -- Whether it returns or raises, the commit of an operational failure trades nothing: the books
  -- are as before, the store has moved only by its own operations, and the tables of the forward
  -- experiment only by theirs.
  pub commit_operational_failure-Quiet :
      (w : World F) → Quiet w (commit_operational_failure fl setting f w).0
  unfolding commit_operational_failure
  commit_operational_failure-Quiet =
      bind _ _ (Keeps-lift Quiet Quiet-IsPreorder _) (λ key. unless_held-IsQuiet _ _)
