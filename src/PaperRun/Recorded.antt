-- ===== src/PaperRun/Recorded.antt =====
-- The row of `PaperTradingSystem.run` and the status that it returns.
use text.Mathlib.Text.{◌==◌ as str_eq}
use text.Mathlib.TextEquality.{eq_iff}
use hermes_crypto_lab.Base.{
  ℕ, ◌≡◌, refl, String, Option, none, some, Bool, true, false, List, [], ◌∷◌, if◌then◌else◌, Result,
  ok, err, Bool-cases, inl, inr, ok_eq, raise_if-passed,
}
use mathlib.Core.Path.{subst}
use hermes_crypto_lab.Float.{FloatOps}
use hermes_crypto_lab.Broker.{Books, Proposal}
use hermes_crypto_lab.Broker.Execute.{ExecutionOutcome}
use hermes_crypto_lab.Store.{
  Run, RunStatus, running, recovered_committed, recovered_aborted, Store, Provenance,
  ReconciliationResult, run_exists, update_run, finished, persist_equity, activate_kill_switch,
  mem_text,
}
use hermes_crypto_lab.Store.Steps.{insert_run-passed, runs-finish_run}
use hermes_crypto_lab.PaperRun.{
  Request, Setting, PaperRunResult, ResultStatus, of_run, duplicate_schedule, run, trade, add_run,
  end_run, halt, snapshot_equity, propose_all, conclude, settle_status, provenance_failure,
  account_halted, corrupted, data_halted, outside_window, dry_run_only,
}
use hermes_crypto_lab.PaperRun.Act.{System, Action, ◌>>=◌, returned, then_run, read}
use hermes_crypto_lab.PaperRun.Act.Binds.{on_store-bind, read-bind, on_books-bind, transaction-bind}
use hermes_crypto_lab.PaperRun.Trade.Passed.{execute_transaction-runs}
use hermes_crypto_lab.PaperRun.Branches.{run-branch}

-- The status of the first row of a run.
unfoldable pub status_of : String → List Run → Option RunStatus
status_of id [] = none
status_of id (r ∷ rs) =
    let rest = status_of id rs in if str_eq r.run_id id then some r.status else rest

-- A status that `run` itself may leave: neither RUNNING nor one that a recovery gives.
abbrev pub IsEnded : RunStatus → Type 0
IsEnded running = ⊥
IsEnded recovered_committed = ⊥
IsEnded recovered_aborted = ⊥
IsEnded _ = Unit

-- A run that was refused as a duplicate has no row.
abbrev pub IsRecorded : ResultStatus → String → Store → Type 0
IsRecorded (of_run status) id s = (status_of id s.runs ≡ some status) × IsEnded status
IsRecorded duplicate_schedule id s = Unit

status_of-update_run :
    (id : String) (f : Run → Run) (status : RunStatus) (rs : List Run)
    → ((r : Run) → (f r).run_id ≡ r.run_id)
    → ((r : Run) → (f r).status ≡ status)
    → run_exists id rs ≡ true
    → status_of id (update_run id f rs) ≡ some status
unfolding status_of update_run run_exists
status_of-update_run id f status [] ids sets h = absurd (cc h)
status_of-update_run id f status (r ∷ rs) ids sets h = elim (Bool-cases (str_eq r.run_id id)) [
  | inl same ↦ rw (same, ids r, same, sets r) refl
  | inr other ↦ rw (other, other) (status_of-update_run id f status rs ids sets (rw other at h))
]

module _ (fl : FloatOps) (setting : Setting fl) (req : Request) where
  open fl use {F}

  -- What an answer says of the run's row.
  abbrev Post : System F × Result (PaperRunResult F) → Type 0
  Post (t, err e) = Unit
  Post (t, ok r) = IsRecorded r.status req.run_id t.store

  abbrev Present : System F → Type 0
  Present s = run_exists req.run_id s.store.runs ≡ true

  end_run-Post :
      (status : RunStatus) (message : String) (r : ReconciliationResult)
      (o : Option ExecutionOutcome) (result : PaperRunResult F) (s : System F)
      → result.status ≡ of_run status
      → IsEnded status
      → Present s
      → Post (end_run fl setting req status message r o result s)
  unfolding end_run returned
  end_run-Post status message r o result s same ends present =
      on_store-bind Post _ _ s (λ e. tt)
        (λ store e. rw same (
          rw (runs-finish_run req.run_id status req.now message r o s.store store e) (
              status_of-update_run req.run_id (finished status req.now message r) status
                s.store.runs (λ x. refl) (λ x. refl) present),
          ends,
        ))

  add_run-Post :
      (key attempted : Option ℕ) (p : Option Provenance) (allowed : Bool)
      (next : Unit {0} → Action F (PaperRunResult F)) (s : System F)
      → ((t : System F) → Present t → Post (next tt t))
      → Post ((add_run fl setting req key attempted p allowed >>= next) s)
  unfolding add_run run_exists
  add_run-Post key attempted p allowed next s goes =
      on_store-bind Post _ _ s (λ e. tt)
        (λ store e.
          let (_, _, done) = insert_run-passed setting.matches _ s.store store e in
          goes (record s { store = store }) (rw (done, (eq_iff req.run_id req.run_id).1 refl) refl))

  halt-Post :
      (reason : String) (next : Unit {0} → Action F (PaperRunResult F)) (s : System F)
      → ((t : System F) → Present t → Post (next tt t))
      → Present s
      → Post ((halt fl setting req reason >>= next) s)
  unfolding halt activate_kill_switch
  halt-Post reason next s goes present =
      on_store-bind Post _ _ s (λ e. tt)
        (λ store e.
          let done : activate_kill_switch reason (some req.run_id) s.store ≡ store = ok_eq _ _ e in
          goes (record s { store = store }) (rw (← done) present))

  snapshot-Post :
      (next : F → Action F (PaperRunResult F)) (s : System F)
      → ((x : F) (t : System F) → Present t → Post (next x t))
      → Present s
      → Post ((snapshot_equity fl setting req >>= next) s)
  unfolding snapshot_equity persist_equity ◌>>=◌ read
  snapshot-Post next s goes present =
      on_store-bind (λ o. Post (then_run o next)) _ _ s (λ e. tt)
        (λ store e.
          let (_, done) = raise_if-passed (mem_text req.run_id s.store.equity_snapshots) _ _ e in
          let same : record s.store { equity_snapshots = req.run_id ∷ s.store.equity_snapshots }
              ≡ store =
            ok_eq _ _ done in
          goes _ (record s { store = store }) (rw (← same) present))

  settle_status-Post :
      (r : ReconciliationResult) (message : String)
      (next : RunStatus × String → Action F (PaperRunResult F)) (s : System F)
      → ((x : RunStatus × String) (t : System F) → IsEnded x.0 → Present t → Post (next x t))
      → Present s
      → Post ((settle_status fl setting req r message >>= next) s)
  unfolding settle_status halt activate_kill_switch ◌>>=◌ returned
  settle_status-Post r message next s goes present = elim (Bool-cases r.valid) [
    | inl valid ↦ rw valid (goes _ s tt present)
    | inr invalid ↦ rw invalid (
        on_store-bind (λ o. Post (then_run o next)) _ _ s (λ e. tt)
          (λ store e.
            let done : activate_kill_switch r.message (some req.run_id) s.store ≡ store =
              ok_eq _ _ e in
            goes _ (record s { store = store }) tt (rw (← done) present)))
  ]

  conclude-Post :
      (ps : List (Proposal F)) (before : Books F) (e : F) (s : System F)
      → Present s
      → Post (conclude fl setting req ps before e s)
  unfolding conclude
  conclude-Post ps before e s present = read-bind Post _ _ s (
      read-bind Post _ _ s
        (settle_status-Post _ _ _ s (λ x t ends p. end_run-Post x.0 _ _ _ _ t refl ends p) present))

  trade-Post : (key : ℕ) (s : System F) → Post (trade fl setting req key s)
  unfolding trade propose_all
  trade-Post key s = add_run-Post (some key) none req.release_provenance false _ s (λ t present.
      on_books-bind Post _ _ t (λ e. tt)
        (λ ps b e.
          read-bind Post _ _ (record t { books = b })
            (transaction-bind Post _ _ (record t { books = b }) (λ e'. tt)
              (λ x u done.
                let same : u.store.runs ≡ t.store.runs =
                  execute_transaction-runs fl setting req ps (record t { books = b }) x u done in
                conclude-Post ps b x u (rw same present)))))

  dry_run_only-Post : (s : System F) → Post (dry_run_only fl setting req s)
  unfolding dry_run_only propose_all
  dry_run_only-Post s = add_run-Post none none none false _ s (λ t present.
      on_books-bind Post _ _ t (λ e. tt)
        (λ ps b e.
          snapshot-Post _ (record t { books = b })
            (λ x u there. read-bind Post _ _ u (end_run-Post _ _ _ _ _ u refl tt there)) present))

  outside_window-Post : (s : System F) → Post (outside_window fl setting req s)
  unfolding outside_window
  outside_window-Post s = add_run-Post none none req.release_provenance false _ s (λ t present.
      snapshot-Post _ t (λ x u there. read-bind Post _ _ u (end_run-Post _ _ _ _ _ u refl tt there))
        present)

  provenance_failure-Post :
      (k : Option ℕ) (s : System F) → Post (provenance_failure fl setting req k s)
  unfolding provenance_failure
  provenance_failure-Post k s =
      read-bind Post _ _ s
        (add_run-Post none k none true _ s (λ t present. end_run-Post _ _ _ _ _ t refl tt present))

  account_halted-Post : (k : Option ℕ) (s : System F) → Post (account_halted fl setting req k s)
  unfolding account_halted
  account_halted-Post k s = read-bind Post _ _ s (
      add_run-Post k none req.release_provenance false _ s
        (λ t present. end_run-Post _ _ _ _ _ t refl tt present))

  corrupted-Post :
      (k : Option ℕ) (r : ReconciliationResult) (s : System F)
      → Post (corrupted fl setting req k r s)
  unfolding corrupted
  corrupted-Post k r s = add_run-Post k none req.release_provenance false _ s (λ t present.
      halt-Post r.message _ t (λ u there. end_run-Post _ _ _ _ _ u refl tt there) present)

  data_halted-Post :
      (k : Option ℕ) (r : ReconciliationResult) (error : String) (s : System F)
      → Post (data_halted fl setting req k r error s)
  unfolding data_halted
  data_halted-Post k r error s =
      add_run-Post none k req.release_provenance false _ s
        (λ t present. end_run-Post _ _ _ _ _ t refl tt present)

  run-Post : (s : System F) → Post (run fl setting req s)
  run-Post s = run-branch fl setting req s Post (record {
    raised = λ e. tt;
    unproven = λ k. provenance_failure-Post k s;
    halted = λ k. account_halted-Post k s;
    corrupt = λ k r. corrupted-Post k r s;
    bad_data = λ k r error. data_halted-Post k r error s;
    outside = outside_window-Post s;
    dry = dry_run_only-Post s;
    duplicate = λ key. tt;
    trades = λ key found. trade-Post key s;
  })

  -- When a run returns a status, other than that of a duplicate schedule, which leaves no row, the
  -- table has a row with its identifier and that status, and the status is neither RUNNING nor one
  -- that a recovery gives: a run that returns is not left RUNNING.
  pub run-status_of :
      (s t : System F) (r : PaperRunResult F) (status : RunStatus)
      → run fl setting req s ≡ (t, ok r)
      → r.status ≡ of_run status
      → (status_of req.run_id t.store.runs ≡ some status) × IsEnded status
  run-status_of s t r status h same =
      let recorded : IsRecorded r.status req.run_id t.store = subst Post h (run-Post s) in
      subst (λ x. IsRecorded x req.run_id t.store) same recorded
