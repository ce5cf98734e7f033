-- ===== src/Broker/Proposals/Targets.antt =====
-- The proposals of `_proposals`, and their number.
use hermes_crypto_lab.Base.{
  ℕ, ◌+◌, ◌≤◌, ◌≡◌, refl, String, Option, false, List, [], ◌∷◌, ok, inl, inr, Bool-cases, >>=-eq-ok,
  ok_eq, length, length-append, All, All-append, arith,
}
use mathlib.Core.Path.{subst}
use hermes_crypto_lab.Float.{FloatOps}
use hermes_crypto_lab.Quantity.{Normalized, executable, refused}
use hermes_crypto_lab.Broker.{BrokerConfig, Market, Books, Proposal}
use hermes_crypto_lab.Broker.Execute.{final_quantity}
use hermes_crypto_lab.Broker.Proposals.{
  make_proposals, propose, propose_each, proposed, delta, equity, side_of, target_weight,
}
use hermes_crypto_lab.Broker.Proposals.Tables.{SameTables, propose-SameTables}

module _ (fl : FloatOps) (config : BrokerConfig fl.F) (market : Market fl.F)
    (target_weights : String → Option fl.F) (idempotency_key : String → String) where
  open fl use {F, le, absolute}

  abbrev pub gap : F → Books F → String → F
  gap total b asset = delta fl config market target_weights idempotency_key total b asset

  -- A proposal closes the gap of its symbol, in quantity that the exchange's rules accept.
  pub record IsProposed (total : F) (b : Books F) (p : Proposal F) : Type 0 where
    pub wide : le (absolute (gap total b p.symbol)) config.quantity_tolerance ≡ false
    pub accepted :
        final_quantity fl config market p.symbol (absolute (gap total b p.symbol))
        ≡ ok (executable p.requested_quantity)
    pub sided :
        p.side ≡ side_of fl config market target_weights idempotency_key (gap total b p.symbol)
    pub weighted :
        p.target_weight ≡ target_weight fl config market target_weights idempotency_key p.symbol
    pub keyed : p.idempotency_key ≡ idempotency_key p.symbol

  abbrev pub Counted : ℕ → List (Proposal F) → Books F → Books F → Type 0
  Counted n ps b b' = length ps + length b'.rejections ≤ n + length b.rejections

  proposed-IsProposed :
      (total : F) (asset : String) (b : Books F) (n : Normalized F)
      → le (absolute (gap total b asset)) config.quantity_tolerance ≡ false
      → final_quantity fl config market asset (absolute (gap total b asset)) ≡ ok n
      → let after : List (Proposal F) × Books F =
          proposed fl config market target_weights idempotency_key asset (gap total b asset) n b in
        All (IsProposed total b) after.0 × Counted 1 after.0 b after.1
  proposed-IsProposed total asset b (executable q) wide accepted = (
    (record { wide = wide; accepted = accepted; sided = refl; weighted = refl; keyed = refl }, tt),
    omega arith,
  )
  proposed-IsProposed total asset b (refused reason) wide accepted = (tt, omega arith)

  propose-IsProposed :
      (total : F) (asset : String) (b b' : Books F) (ps : List (Proposal F))
      → propose fl config market target_weights idempotency_key total asset b ≡ ok (ps, b')
      → All (IsProposed total b) ps × Counted 1 ps b b'
  unfolding propose
  propose-IsProposed total asset b b' ps e =
      elim (Bool-cases (le (absolute (gap total b asset)) config.quantity_tolerance)) [
        | inl small ↦
            let same = ok_eq _ _ (rw small at e) in
            subst
              (λ (x : List (Proposal F) × Books F).
                All (IsProposed total b) x.0 × Counted 1 x.0 b x.1)
              same (tt, omega arith)
        | inr large ↦
            let (n, accepted, done) =
              >>=-eq-ok (final_quantity fl config market asset (absolute (gap total b asset))) _
                (rw large at e) in
            subst
              (λ (x : List (Proposal F) × Books F).
                All (IsProposed total b) x.0 × Counted 1 x.0 b x.1)
              (ok_eq _ _ done) (proposed-IsProposed total asset b n large accepted)
      ]

  -- The gap reads the positions only, which the rejections leave.
  gap-SameTables :
      (total : F) (b b' : Books F) (asset : String)
      → SameTables b b'
      → gap total b' asset ≡ gap total b asset
  unfolding delta
  gap-SameTables total b b' asset same = rw same.positions refl

  IsProposed-SameTables :
      (total : F) (b b' : Books F) (p : Proposal F)
      → SameTables b b'
      → IsProposed total b' p
      → IsProposed total b p
  IsProposed-SameTables total b b' p same h =
      let e = gap-SameTables total b b' p.symbol same in
      record {
        wide = subst (λ g. le (absolute g) config.quantity_tolerance ≡ false) e h.wide;
        accepted =
            subst
              (λ g.
                final_quantity fl config market p.symbol (absolute g)
                ≡ ok (executable p.requested_quantity))
              e h.accepted;
        sided =
            subst (λ g. p.side ≡ side_of fl config market target_weights idempotency_key g) e
              h.sided;
        weighted = h.weighted;
        keyed = h.keyed;
      }

  All-IsProposed :
      (total : F) (b b' : Books F) (ps : List (Proposal F))
      → SameTables b b'
      → All (IsProposed total b') ps
      → All (IsProposed total b) ps
  All-IsProposed total b b' [] same h = tt
  All-IsProposed total b b' (p ∷ ps) same h =
      (IsProposed-SameTables total b b' p same h.0, All-IsProposed total b b' ps same h.1)

  propose_each-IsProposed :
      (total : F) (assets : List String) (b b' : Books F) (ps : List (Proposal F))
      → propose_each fl config market target_weights idempotency_key total assets b ≡ ok (ps, b')
      → All (IsProposed total b) ps × Counted (length assets) ps b b'
  unfolding propose_each
  propose_each-IsProposed total [] b b' ps e =
      subst
        (λ (x : List (Proposal F) × Books F). All (IsProposed total b) x.0 × Counted 0 x.0 b x.1)
        (ok_eq _ _ e) (tt, omega arith)
  propose_each-IsProposed total (asset ∷ assets) b b' ps e =
      let ((first, b1), one, e1) =
        >>=-eq-ok (propose fl config market target_weights idempotency_key total asset b) _ e in
      let ((rest, b2), others, e2) =
        >>=-eq-ok (propose_each fl config market target_weights idempotency_key total assets b1) _
          e1 in
      let same =
        propose-SameTables fl config market target_weights idempotency_key total asset b b1 first
          one in
      let (here, count1) = propose-IsProposed total asset b b1 first one in
      let (there, count2) = propose_each-IsProposed total assets b1 b2 rest others in
      subst
        (λ (x : List (Proposal F) × Books F).
          All (IsProposed total b) x.0 × Counted (length (asset ∷ assets)) x.0 b x.1)
        (ok_eq _ _ e2)
        (
          All-append (IsProposed total b) first rest here
              (All-IsProposed total b b1 rest same there),
          omega (arith, length-append first rest, count1, count2),
        )

  -- Over the whole loop, with the equity of the books before it.
  pub make_proposals-IsProposed :
      (assets : List String) (b b' : Books F) (ps : List (Proposal F))
      → make_proposals fl config market target_weights idempotency_key assets b ≡ ok (ps, b')
      → All (IsProposed (equity fl config market target_weights idempotency_key assets b) b) ps
        × (length ps + length b'.rejections ≤ length assets)
  unfolding make_proposals
  make_proposals-IsProposed assets b b' ps e =
      let start : Books F = record b { rejections = [] } in
      let total = equity fl config market target_weights idempotency_key assets b in
      let (proposals, count) = propose_each-IsProposed total assets start b' ps e in
      (
        All-IsProposed total b start ps
            (record {
              cash = refl;
              positions = refl;
              orders = refl;
              fills = refl;
              cash_ledger = refl;
              position_ledger = refl;
            })
            proposals,
        omega (arith, count),
      )
