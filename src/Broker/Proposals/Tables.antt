-- ===== src/Broker/Proposals/Tables.antt =====
-- The tables of the books under `_proposals`.
use hermes_crypto_lab.Base.{
  ◌≡◌, refl, ◌∙◌, String, Option, List, [], ◌∷◌, ok, inl, inr, Bool-cases, >>=-eq-ok, ok-snd,
}
use hermes_crypto_lab.Float.{FloatOps}
use hermes_crypto_lab.Quantity.{Normalized, executable, refused}
use hermes_crypto_lab.Broker.{BrokerConfig, Market, Books, Proposal}
use hermes_crypto_lab.Broker.Execute.{final_quantity}
use hermes_crypto_lab.Broker.Proposals.{
  make_proposals, propose, propose_each, proposed, delta, equity,
}

-- The tables of the books agree; the rejections are only kept in memory.
pub record SameTables {F : Type 0} (b b' : Books F) : Type 0 where
  pub cash : b'.cash ≡ b.cash
  pub positions : b'.positions ≡ b.positions
  pub orders : b'.orders ≡ b.orders
  pub fills : b'.fills ≡ b.fills
  pub cash_ledger : b'.cash_ledger ≡ b.cash_ledger
  pub position_ledger : b'.position_ledger ≡ b.position_ledger

module _ {F : Type 0} where
  pub SameTables-refl : (b : Books F) → SameTables b b
  SameTables-refl b = record {
    cash = refl;
    positions = refl;
    orders = refl;
    fills = refl;
    cash_ledger = refl;
    position_ledger = refl;
  }

  pub SameTables-trans : (a b c : Books F) → SameTables a b → SameTables b c → SameTables a c
  SameTables-trans a b c p q = record {
    cash = q.cash ∙ p.cash;
    positions = q.positions ∙ p.positions;
    orders = q.orders ∙ p.orders;
    fills = q.fills ∙ p.fills;
    cash_ledger = q.cash_ledger ∙ p.cash_ledger;
    position_ledger = q.position_ledger ∙ p.position_ledger;
  }

module _ (fl : FloatOps) (config : BrokerConfig fl.F) (market : Market fl.F)
    (target_weights : String → Option fl.F) (idempotency_key : String → String) where
  open fl use {F, le, absolute}

  proposed-SameTables :
      (asset : String) (d : F) (n : Normalized F) (b : Books F)
      → SameTables b (proposed fl config market target_weights idempotency_key asset d n b).1
  proposed-SameTables asset d (executable q) b = SameTables-refl b
  proposed-SameTables asset d (refused reason) b = record {
    cash = refl;
    positions = refl;
    orders = refl;
    fills = refl;
    cash_ledger = refl;
    position_ledger = refl;
  }

  pub propose-SameTables :
      (total : F) (asset : String) (b b' : Books F) (ps : List (Proposal F))
      → propose fl config market target_weights idempotency_key total asset b ≡ ok (ps, b')
      → SameTables b b'
  unfolding propose
  propose-SameTables total asset b b' ps e =
      let d : F = delta fl config market target_weights idempotency_key total b asset in
      elim (Bool-cases (le (absolute d) config.quantity_tolerance)) [
        | inl small ↦ rw (← ok-snd _ _ (rw small at e)) (SameTables-refl b)
        | inr large ↦
            let (n, _, done) =
              >>=-eq-ok (final_quantity fl config market asset (absolute d)) _ (rw large at e) in
            rw (← ok-snd _ _ done) (proposed-SameTables asset d n b)
      ]

  propose_each-SameTables :
      (total : F) (assets : List String) (b b' : Books F) (ps : List (Proposal F))
      → propose_each fl config market target_weights idempotency_key total assets b ≡ ok (ps, b')
      → SameTables b b'
  unfolding propose_each
  propose_each-SameTables total [] b b' ps e = rw (← ok-snd _ _ e) (SameTables-refl b)
  propose_each-SameTables total (asset ∷ assets) b b' ps e =
      let ((first, b1), one, e1) =
        >>=-eq-ok (propose fl config market target_weights idempotency_key total asset b) _ e in
      let ((rest, b2), others, e2) =
        >>=-eq-ok (propose_each fl config market target_weights idempotency_key total assets b1) _
          e1 in
      rw (← ok-snd _ _ e2) (
        SameTables-trans b b1 b2 (propose-SameTables total asset b b1 first one)
          (propose_each-SameTables total assets b1 b2 rest others))

  pub make_proposals-SameTables :
      (assets : List String) (b b' : Books F) (ps : List (Proposal F))
      → make_proposals fl config market target_weights idempotency_key assets b ≡ ok (ps, b')
      → SameTables b b'
  unfolding make_proposals
  make_proposals-SameTables assets b b' ps e =
      let each =
        propose_each-SameTables (equity fl config market target_weights idempotency_key assets b)
          assets (record b { rejections = [] }) b' ps e in
      record {
        cash = each.cash;
        positions = each.positions;
        orders = each.orders;
        fills = each.fills;
        cash_ledger = each.cash_ledger;
        position_ledger = each.position_ledger;
      }
