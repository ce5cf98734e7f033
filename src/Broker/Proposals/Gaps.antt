-- ===== src/Broker/Proposals/Gaps.antt =====
-- What `_proposals` proposes, against a description of the gap of an asset of its own: the position
-- that the target weight asks for less the one that is held, on quotes and books as they are.
use hermes_crypto_lab.Base.{
  ◌+◌, ◌≤◌, ◌≡◌, refl, ap, ◌∙◌, String, Option, none, some, true, false, List, [], ◌∷◌, map, ok,
  length, All,
}
use mathlib.Core.Path.{subst}
use hermes_crypto_lab.Base.Int.{pos}
use hermes_crypto_lab.Decimal.{finite}
use hermes_crypto_lab.Float.{FloatOps, f_zero}
use hermes_crypto_lab.Quantity.{executable}
use hermes_crypto_lab.Broker.{buy, sell, BrokerConfig, Market, Position, Books, Proposal}
use hermes_crypto_lab.Broker.Execute.{position_of, final_quantity, quantity_or_zero}
use hermes_crypto_lab.Broker.Proposals.{
  make_proposals, delta, equity, value_of, target_weight, current,
}
use hermes_crypto_lab.Broker.Proposals.Targets
use hermes_crypto_lab.Broker.Proposals.Targets.{make_proposals-IsProposed}

module _ (fl : FloatOps) (config : BrokerConfig fl.F) (market : Market fl.F)
    (target_weights : String → Option fl.F) (idempotency_key : String → String) where
  open fl use {F, lt, le, plus, minus, times, over, absolute, of_decimal}

  -- The value, or 0.0 without one; and the quantity of a position, or 0.0 without one.
  abbrev pub or_zero : Option F → F
  or_zero none = f_zero fl
  or_zero (some x) = x

  abbrev pub quantity_in : Option (Position F) → F
  quantity_in none = f_zero fl
  quantity_in (some p) = p.quantity

  abbrev pub holding : Books F → String → F
  holding b s = quantity_in (position_of s b.positions)

  -- Half way between bid and ask.
  abbrev pub midpoint : String → F
  midpoint s =
      over (plus (market.quotes s).bid (market.quotes s).ask) (of_decimal (finite false 2 (pos 0)))

  abbrev pub sum_from : F → List F → F
  sum_from x [] = x
  sum_from x (y ∷ ys) = sum_from (plus x y) ys

  -- The cash and the value of the holdings.
  abbrev pub worth : List String → Books F → F
  worth assets b =
      plus b.cash (sum_from (f_zero fl) (map (λ s. times (holding b s) (midpoint s)) assets))

  -- The quantity that the target weight asks for, less the one that is held.
  abbrev pub gap : F → Books F → String → F
  gap total b s = minus (over (times total (or_zero (target_weights s))) (midpoint s)) (holding b s)

  -- A proposal closes the gap of its symbol: the gap is beyond the tolerance, its size is accepted
  -- as the quantity, a gap above zero is bought and any other sold.
  pub record ClosesGap (total : F) (b : Books F) (p : Proposal F) : Type 0 where
    pub wide : le (absolute (gap total b p.symbol)) config.quantity_tolerance ≡ false
    pub accepted :
        final_quantity fl config market p.symbol (absolute (gap total b p.symbol))
        ≡ ok (executable p.requested_quantity)
    pub bought : lt (f_zero fl) (gap total b p.symbol) ≡ true → p.side ≡ buy
    pub sold : lt (f_zero fl) (gap total b p.symbol) ≡ false → p.side ≡ sell
    pub weighted : p.target_weight ≡ or_zero (target_weights p.symbol)
    pub keyed : p.idempotency_key ≡ idempotency_key p.symbol

  quantity_or_zero-eq :
      (o : Option (Position F)) → quantity_or_zero fl config market o ≡ quantity_in o
  quantity_or_zero-eq none = refl
  quantity_or_zero-eq (some p) = refl

  target_weight-eq :
      (s : String)
      → target_weight fl config market target_weights idempotency_key s ≡ or_zero (target_weights s)
  target_weight-eq s = by_value (target_weights s)
    where
      by_value :
          (o : Option F) → (let w : F = elim o [ none ↦ f_zero fl | some x ↦ x ] in w ≡ or_zero o)
      by_value none = refl
      by_value (some x) = refl

  delta-gap :
      (total : F) (b : Books F) (s : String)
      → delta fl config market target_weights idempotency_key total b s ≡ gap total b s
  unfolding delta
  delta-gap total b s =
      ap
        (λ (w : F).
          minus (over (times total w) (midpoint s))
            (current fl config market target_weights idempotency_key b s))
        (target_weight-eq s)
      ∙ ap (minus (over (times total (or_zero (target_weights s))) (midpoint s)))
          (quantity_or_zero-eq (position_of s b.positions))

  value_of-sum_from :
      (b : Books F) (assets : List String) (total : F)
      → value_of fl config market target_weights idempotency_key b assets total
        ≡ sum_from total (map (λ s. times (holding b s) (midpoint s)) assets)
  unfolding value_of
  value_of-sum_from b [] total = refl
  value_of-sum_from b (s ∷ assets) total =
      rw (value_of-sum_from b assets, quantity_or_zero-eq (position_of s b.positions)) refl

  abbrev Proposes : F → Books F → Proposal F → Type 0
  Proposes = Targets.IsProposed fl config market target_weights idempotency_key

  Proposes-ClosesGap :
      (total : F) (b : Books F) (p : Proposal F) → Proposes total b p → ClosesGap total b p
  Proposes-ClosesGap total b p h =
      let e = delta-gap total b p.symbol in
      record {
        wide = rw (← e) h.wide;
        accepted = rw (← e) h.accepted;
        bought = λ above. rw (h.sided, e, above) refl;
        sold = λ not_above. rw (h.sided, e, not_above) refl;
        weighted = h.weighted ∙ target_weight-eq p.symbol;
        keyed = h.keyed;
      }

  All-ClosesGap :
      (total : F) (b : Books F) (ps : List (Proposal F))
      → All (Proposes total b) ps
      → All (ClosesGap total b) ps
  All-ClosesGap total b [] h = tt
  All-ClosesGap total b (p ∷ ps) h =
      (Proposes-ClosesGap total b p h.0, All-ClosesGap total b ps h.1)

  -- When the proposals of a run are made: each is for a symbol whose gap, the quantity that the
  -- target weight asks for of cash and holdings at the midpoints less the quantity held, is beyond
  -- the tolerance; it buys where the gap is above zero and sells where it is not, in the quantity
  -- that the exchange's rules have accepted for the size of the gap; and proposals and rejections
  -- together are not more than the assets.
  pub make_proposals-ClosesGap :
      (assets : List String) (b b' : Books F) (ps : List (Proposal F))
      → make_proposals fl config market target_weights idempotency_key assets b ≡ ok (ps, b')
      → All (ClosesGap (worth assets b) b) ps × (length ps + length b'.rejections ≤ length assets)
  make_proposals-ClosesGap assets b b' ps e =
      let (all, count) =
        make_proposals-IsProposed fl config market target_weights idempotency_key assets b b' ps
          e in
      let total = equity fl config market target_weights idempotency_key assets b in
      let same : total ≡ worth assets b =
        ap (plus b.cash) (value_of-sum_from b assets (f_zero fl)) in
      (subst (λ t. All (ClosesGap t b) ps) same (All-ClosesGap total b ps all), count)
