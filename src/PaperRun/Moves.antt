-- ===== src/PaperRun/Moves.antt =====
-- Relations between states that the parts of `PaperTradingSystem.run` keep.
use hermes_crypto_lab.Base.{
  ℕ, ◌≡◌, refl, String, Option, none, some, Bool, true, false, List, Result, ok, err, Bool-cases,
  inl, inr, ok_eq,
}
use hermes_crypto_lab.Float.{FloatOps}
use hermes_crypto_lab.Broker.{Books, Proposal}
use hermes_crypto_lab.Broker.Execute.{ExecutionOutcome}
use hermes_crypto_lab.Store.{Store, RunStatus, ReconciliationResult, Provenance}
use hermes_crypto_lab.Store.Steps.{StoreStep}
use hermes_crypto_lab.PaperRun.{
  Request, Setting, PaperRunResult, is_official, attempted_key, add_run, end_run, halt,
  provenance_failure, account_halted, corrupted, data_halted, snapshot_equity, outside_window,
  settle_status, conclude,
}
use hermes_crypto_lab.State.Keeps.{
  IsPreorder, Keeps-bind, Keeps-returned, Keeps-lift, Keeps-read, Keeps-transaction,
}
use hermes_crypto_lab.PaperRun.Act.{
  System, Action, ◌>>=◌, returned, lift, read, on_store, on_books, transaction, stored, booked,
}

-- A relation that may be followed from one change to the next.
pub record IsMove {F : Type 0} (R : System F → System F → Type 0) : Type 0 where
  pub rest : (s : System F) → R s s
  pub on : (s t u : System F) → R s t → R t u → R s u
  -- every operation of the store
  pub stores :
      (s : System F) (store : Store) → StoreStep s.store store → R s (record s { store = store })

module _ {F : Type 0} (R : System F → System F → Type 0) (move : IsMove R) where
  abbrev pub Moves : {A : Type 0} → Action F A → Type 0
  Moves act = (s : System F) → R s (act s).0

  order : IsPreorder R
  order = record { rest = move.rest; on = move.on }

  pub Moves-bind :
      {A B : Type 0} (act : Action F A) (next : A → Action F B)
      → Moves act
      → ((x : A) → Moves (next x))
      → Moves (act >>= next)
  Moves-bind = Keeps-bind R order

  pub Moves-returned : {A : Type 0} (x : A) → Moves (returned x)
  Moves-returned = Keeps-returned R order

  pub Moves-lift : {A : Type 0} (r : Result A) → Moves (lift r)
  Moves-lift = Keeps-lift R order

  pub Moves-read : {A : Type 0} (f : System F → A) → Moves (read f)
  Moves-read = Keeps-read R order

  pub Moves-on_store :
      (operation : Store → Result Store)
      → ((s t : Store) → operation s ≡ ok t → StoreStep s t)
      → Moves (on_store operation)
  unfolding on_store
  Moves-on_store operation step s = after (operation s.store) (step s.store)
    where
      after :
          (o : Result Store) → ((t : Store) → o ≡ ok t → StoreStep s.store t) → R s (stored s o).0
      after (err e) h = move.rest s
      after (ok t) h = move.stores s t (h t refl)

  pub Moves-on_books :
      {A : Type 0} (operation : Books F → Result (A × Books F))
      → ((s : System F) (x : A) (b : Books F)
          → operation s.books ≡ ok (x, b)
          → R s (record s { books = b }))
      → Moves (on_books operation)
  unfolding on_books
  Moves-on_books {A} operation h s = after (operation s.books) (h s)
    where
      after :
          (o : Result (A × Books F))
          → ((x : A) (b : Books F) → o ≡ ok (x, b) → R s (record s { books = b }))
          → R s (booked s o).0
      after (err e) h = move.rest s
      after (ok (x, b)) h = h x b refl

  pub Moves-transaction :
      {A : Type 0} (work : System F → Result (A × System F))
      → ((s : System F) (x : A) (t : System F) → work s ≡ ok (x, t) → R s t)
      → Moves (transaction work)
  Moves-transaction = Keeps-transaction R order

module _ (fl : FloatOps) (setting : Setting fl) (R : System fl.F → System fl.F → Type 0)
    (move : IsMove R) where
  open fl use {F}

  pub Moves-add_run :
      (req : Request) (key attempted : Option ℕ) (p : Option Provenance) (allowed : Bool)
      → Moves R move (add_run fl setting req key attempted p allowed)
  unfolding add_run
  Moves-add_run req key attempted p allowed =
      Moves-on_store R move _ (λ s t e. StoreStep.insert setting.matches _ e)

  pub Moves-end_run :
      (req : Request) (status : RunStatus) (message : String) (r : ReconciliationResult)
      (o : Option ExecutionOutcome) (result : PaperRunResult F)
      → Moves R move (end_run fl setting req status message r o result)
  unfolding end_run
  Moves-end_run req status message r o result =
      Moves-bind R move _ _
        (Moves-on_store R move _
          (λ s t e. StoreStep.finish req.run_id status req.now message r o e))
        (λ x. Moves-returned R move result)

  pub Moves-halt : (req : Request) (reason : String) → Moves R move (halt fl setting req reason)
  unfolding halt
  Moves-halt req reason =
      Moves-on_store R move _ (λ s t e. StoreStep.halt reason (some req.run_id) (ok_eq _ _ e))

  pub Moves-snapshot_equity : (req : Request) → Moves R move (snapshot_equity fl setting req)
  unfolding snapshot_equity
  Moves-snapshot_equity req =
      Moves-bind R move _ _ (Moves-on_store R move _ (λ s t e. StoreStep.snapshot req.run_id e))
        (λ x. Moves-read R move _)

  pub Moves-attempted_key : (req : Request) → Moves R move (attempted_key fl setting req)
  unfolding attempted_key
  Moves-attempted_key req = elim (Bool-cases (is_official req)) [
    | inl official ↦ rw official (Moves-lift R move _)
    | inr manual ↦ rw manual (Moves-returned R move _)
  ]

  pub Moves-provenance_failure :
      (req : Request) (key : Option ℕ) → Moves R move (provenance_failure fl setting req key)
  unfolding provenance_failure
  Moves-provenance_failure req key = Moves-bind R move _ _ (Moves-read R move _) (λ r.
      Moves-bind R move _ _ (Moves-add_run req none key none true)
        (λ x. Moves-end_run req _ _ r none _))

  pub Moves-account_halted :
      (req : Request) (key : Option ℕ) → Moves R move (account_halted fl setting req key)
  unfolding account_halted
  Moves-account_halted req key = Moves-bind R move _ _ (Moves-read R move _) (λ r.
      Moves-bind R move _ _ (Moves-add_run req key none req.release_provenance false)
        (λ x. Moves-end_run req _ _ r none _))

  pub Moves-corrupted :
      (req : Request) (key : Option ℕ) (r : ReconciliationResult)
      → Moves R move (corrupted fl setting req key r)
  unfolding corrupted
  Moves-corrupted req key r =
      Moves-bind R move _ _ (Moves-add_run req key none req.release_provenance false) (λ x.
        Moves-bind R move _ _ (Moves-halt req r.message) (λ y. Moves-end_run req _ _ r none _))

  pub Moves-data_halted :
      (req : Request) (key : Option ℕ) (r : ReconciliationResult) (error : String)
      → Moves R move (data_halted fl setting req key r error)
  unfolding data_halted
  Moves-data_halted req key r error =
      Moves-bind R move _ _ (Moves-add_run req none key req.release_provenance false)
        (λ x. Moves-end_run req _ _ r none _)

  pub Moves-outside_window : (req : Request) → Moves R move (outside_window fl setting req)
  unfolding outside_window
  Moves-outside_window req =
      Moves-bind R move _ _ (Moves-add_run req none none req.release_provenance false) (λ x.
        Moves-bind R move _ _ (Moves-snapshot_equity req)
          (λ e. Moves-bind R move _ _ (Moves-read R move _) (λ r. Moves-end_run req _ _ r _ _)))

  pub Moves-settle_status :
      (req : Request) (r : ReconciliationResult) (message : String)
      → Moves R move (settle_status fl setting req r message)
  unfolding settle_status
  Moves-settle_status req r message = elim (Bool-cases r.valid) [
    | inl valid ↦ rw valid (Moves-returned R move _)
    | inr invalid ↦
        rw invalid (Moves-bind R move _ _ (Moves-halt req r.message) (λ x. Moves-returned R move _))
  ]

  pub Moves-conclude :
      (req : Request) (ps : List (Proposal F)) (before : Books F) (e : F)
      → Moves R move (conclude fl setting req ps before e)
  unfolding conclude
  Moves-conclude req ps before e = Moves-bind R move _ _ (Moves-read R move _) (λ after.
      Moves-bind R move _ _ (Moves-read R move _) (λ r.
        Moves-bind R move _ _ (Moves-settle_status req r _) (λ o. Moves-end_run req _ _ r _ _)))
