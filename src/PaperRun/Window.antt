-- ===== src/PaperRun/Window.antt =====
-- The store and the books before and after `PaperTradingSystem.run`.
use hermes_crypto_lab.Base.{ℕ, ◌≡◌, ◌⊎◌, List, ok, inl, inr}
use hermes_crypto_lab.Float.{FloatOps}
use hermes_crypto_lab.Broker.{Proposal}
use hermes_crypto_lab.Broker.Proposals.Tables.{
  SameTables, SameTables-refl, SameTables-trans, make_proposals-SameTables,
}
use hermes_crypto_lab.Store.Steps.{StoreStep, Reach, Reach-step, Reach-trans}
use hermes_crypto_lab.PaperRun.{Request, Setting, run, trade}
use hermes_crypto_lab.PaperRun.Act.{System}
use hermes_crypto_lab.PaperRun.Trade.{execute_transaction}
use hermes_crypto_lab.PaperRun.Trade.Passed.{execute_transaction-passed}
use hermes_crypto_lab.PaperRun.Moves.{IsMove}
use hermes_crypto_lab.PaperRun.Branches.{IsTradable}
use hermes_crypto_lab.PaperRun.Quiet.{Moves-trade, run-MovesOrTrades}

module _ {F : Type 0} where
  abbrev pub Quiet : System F → System F → Type 0
  Quiet s t = SameTables s.books t.books

  abbrev pub Stepwise : System F → System F → Type 0
  Stepwise s t = Reach s.store t.store

  pub Quiet-IsMove : IsMove Quiet
  Quiet-IsMove = record {
    rest = λ s. SameTables-refl s.books;
    on = λ s t u p q. SameTables-trans s.books t.books u.books p q;
    stores = λ s store step. SameTables-refl s.books;
  }

  pub Stepwise-IsMove : IsMove Stepwise
  Stepwise-IsMove = record {
    rest = λ s. Reach.here;
    on = λ s t u p q. Reach-trans s.store t.store u.store p q;
    stores = λ s store step. Reach-step s.store store step;
  }

module _ (fl : FloatOps) (setting : Setting fl) where
  open fl use {F}

  -- A run trades, with every guard passed, or it leaves the tables of the books as they were.
  pub run-SameTables :
      (req : Request) (s : System F)
      → SameTables s.books (run fl setting req s).0.books
        ⊎ ((key : ℕ) × IsTradable fl setting req s key
            × (run fl setting req s ≡ trade fl setting req key s))
  run-SameTables req s =
      run-MovesOrTrades fl setting Quiet Quiet-IsMove
        (λ t ps b e.
          make_proposals-SameTables fl setting.config setting.market setting.target_weights
            setting.idempotency_key setting.assets t.books b ps e)
        req s

  pub execute_transaction-Reach :
      (req : Request) (ps : List (Proposal F)) (s : System F) (e : F) (t : System F)
      → execute_transaction fl setting req ps s ≡ ok (e, t)
      → Reach s.store t.store
  execute_transaction-Reach req ps s e t h =
      let (store, store', _, snapshot, outcome, done) =
        execute_transaction-passed fl setting req ps s e t h in
      rw done (
        Reach.next (Reach-step s.store store (StoreStep.snapshot req.run_id snapshot))
          (StoreStep.settle req.run_id _ outcome))

  -- Whether it returns or raises, a run leaves a store that the store's own operations lead to.
  pub run-Reach : (req : Request) (s : System F) → Reach s.store (run fl setting req s).0.store
  run-Reach req s =
      elim (run-MovesOrTrades fl setting Stepwise Stepwise-IsMove (λ t ps b e. Reach.here) req s) [
        | inl moved ↦ moved
        | inr (key, found, same) ↦ rw same (
            Moves-trade fl setting Stepwise Stepwise-IsMove (λ t ps b e. Reach.here) req key
              (execute_transaction-Reach req) s)
      ]
