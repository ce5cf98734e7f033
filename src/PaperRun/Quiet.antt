-- ===== src/PaperRun/Quiet.antt =====
-- Relations between states along `PaperTradingSystem.run`, apart from its trading branch.
use hermes_crypto_lab.Base.{ℕ, ◌≡◌, ◌⊎◌, refl, none, some, false, List, ok, inl, inr}
use hermes_crypto_lab.PaperRun.Moves.{
  IsMove, Moves, Moves-bind, Moves-read, Moves-on_books, Moves-transaction, Moves-add_run,
  Moves-end_run, Moves-snapshot_equity, Moves-provenance_failure, Moves-account_halted,
  Moves-corrupted, Moves-data_halted, Moves-outside_window, Moves-conclude,
}
use hermes_crypto_lab.Float.{FloatOps}
use hermes_crypto_lab.Broker.{Books, Proposal}
use hermes_crypto_lab.Broker.Proposals.{make_proposals}
use hermes_crypto_lab.PaperRun.{
  Request, Setting, PaperRunResult, dry_run_only, trade, run, propose_all,
}
use hermes_crypto_lab.PaperRun.Act.{System, Action}
use hermes_crypto_lab.PaperRun.Trade.{execute_transaction}
use hermes_crypto_lab.PaperRun.Branches.{IsTradable, run-branch}

module _ (fl : FloatOps) (setting : Setting fl) (R : System fl.F → System fl.F → Type 0)
    (move : IsMove R)
    (proposes : (s : System fl.F) (x : List (Proposal fl.F)) (b : Books fl.F)
      → make_proposals fl setting.config setting.market setting.target_weights
          setting.idempotency_key setting.assets s.books
        ≡ ok (x, b)
      → R s (record s { books = b })) where
  open fl use {F}

  Moves-propose_all : Moves R move (propose_all fl setting)
  unfolding propose_all
  Moves-propose_all = Moves-on_books R move _ proposes

  Moves-dry_run_only : (req : Request) → Moves R move (dry_run_only fl setting req)
  unfolding dry_run_only
  Moves-dry_run_only req =
      Moves-bind R move _ _ (Moves-add_run fl setting R move req none none none false) (λ x.
        Moves-bind R move _ _ Moves-propose_all (λ ps.
          Moves-bind R move _ _ (Moves-snapshot_equity fl setting R move req) (λ e.
            Moves-bind R move _ _ (Moves-read R move _)
              (λ r. Moves-end_run fl setting R move req _ _ r _ _))))

  pub Moves-trade :
      (req : Request) (key : ℕ)
      → ((ps : List (Proposal F)) (s : System F) (e : F) (t : System F)
          → execute_transaction fl setting req ps s ≡ ok (e, t)
          → R s t)
      → Moves R move (trade fl setting req key)
  unfolding trade
  Moves-trade req key trades =
      Moves-bind R move _ _
        (Moves-add_run fl setting R move req (some key) none req.release_provenance false)
        (λ x. Moves-bind R move _ _ Moves-propose_all (λ ps.
          Moves-bind R move _ _ (Moves-read R move _) (λ before.
            Moves-bind R move _ _ (Moves-transaction R move _ (trades ps))
              (λ e. Moves-conclude fl setting R move req ps before e))))

  -- The code moves by R, or it trades, having passed the guards.
  abbrev pub MovesOrTrades : Request → Action F (PaperRunResult F) → System F → Type 0
  MovesOrTrades req act s =
      R s (act s).0
      ⊎ ((key : ℕ) × IsTradable fl setting req s key × (act s ≡ trade fl setting req key s))

  pub run-MovesOrTrades : (req : Request) (s : System F) → MovesOrTrades req (run fl setting req) s
  run-MovesOrTrades req s =
      run-branch fl setting req s
        (λ o.
          R s o.0
          ⊎ ((key : ℕ) × IsTradable fl setting req s key × (o ≡ trade fl setting req key s)))
        (record {
          raised = λ e. inl (move.rest s);
          unproven = λ k. inl (Moves-provenance_failure fl setting R move req k s);
          halted = λ k. inl (Moves-account_halted fl setting R move req k s);
          corrupt = λ k r. inl (Moves-corrupted fl setting R move req k r s);
          bad_data = λ k r error. inl (Moves-data_halted fl setting R move req k r error s);
          outside = inl (Moves-outside_window fl setting R move req s);
          dry = inl (Moves-dry_run_only req s);
          duplicate = λ key. inl (move.rest s);
          trades = λ key found. inr (key, found, refl);
        })
