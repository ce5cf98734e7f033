-- ===== src/Broker/Ready.antt =====
-- What the loops of `_execute` make ready: each on its side of the split, with a final quantity.
use hermes_crypto_lab.Base.{
  ◌≡◌, refl, Option, Bool, true, false, not, if◌then◌else◌, List, [], ◌∷◌, ok, String, >>=-eq-ok,
  ap, ok-fst, ok_eq, All,
}
use hermes_crypto_lab.Float.{FloatOps, f_min}
use hermes_crypto_lab.Quantity.{Normalized, executable, refused}
use hermes_crypto_lab.Broker.{OrderSide, buy, sell, BrokerConfig, Market, Proposal, Books}
use hermes_crypto_lab.Broker.Execute.{
  is_sell, range_check, final_quantity, terms_of, Ready, sell_quantity, sell_checked, prepare_sell,
  add_ready, prepare_sells, prepare_buys, sells_of, buys_of, held,
}

module _ (fl : FloatOps) (config : BrokerConfig fl.F) (market : Market fl.F) where
  open fl use {F, lt, times}

  -- A quantity that the final validation let through for a symbol.
  abbrev pub IsFinal : String → F → Type 0
  IsFinal symbol q = (x : F) × (final_quantity fl config market symbol x ≡ ok (executable q))

  -- What the first loop makes ready is final and carries its own terms.
  abbrev pub IsReady : Ready fl config market → Type 0
  IsReady (p, q, t) = (t ≡ terms_of fl config market p) × IsFinal p.symbol q × (p.side ≡ sell)

  abbrev pub IsSale : Proposal F → Type 0
  IsSale p = p.side ≡ sell

  abbrev pub IsPurchase : Proposal F → Type 0
  IsPurchase p = p.side ≡ buy

  -- The split by side.
  pub sells_of-IsSale : (ps : List (Proposal F)) → All IsSale (sells_of ps)
  unfolding sells_of
  sells_of-IsSale [] = tt
  sells_of-IsSale (p ∷ ps) = if_sell p.side refl (sells_of-IsSale ps)
    where
      if_sell :
          (side : OrderSide)
          → p.side ≡ side
          → All IsSale (sells_of ps)
          → All IsSale (if is_sell side then p ∷ sells_of ps else sells_of ps)
      if_sell sell on rest = (on, rest)
      if_sell buy on rest = rest

  pub buys_of-IsPurchase : (ps : List (Proposal F)) → All IsPurchase (buys_of ps)
  unfolding buys_of
  buys_of-IsPurchase [] = tt
  buys_of-IsPurchase (p ∷ ps) = if_buy p.side refl (buys_of-IsPurchase ps)
    where
      if_buy :
          (side : OrderSide)
          → p.side ≡ side
          → All IsPurchase (buys_of ps)
          → All IsPurchase (if not (is_sell side) then p ∷ buys_of ps else buys_of ps)
      if_buy sell on rest = rest
      if_buy buy on rest = (on, rest)

  pub prepare_buys_ready :
      (ps : List (Proposal F)) (x : F) (b b' : Books F) (ready : List (Proposal F)) (total : F)
      → All IsPurchase ps
      → prepare_buys fl config market ps x b ≡ ok (ready, total, b')
      → All IsPurchase ready
  unfolding prepare_buys
  prepare_buys_ready [] x b b' ready total good e =
      rw
        (← (
          ap (λ (r : List (Proposal F) × F × Books F). r.0)
            (ok_eq ([], x, b) (ready, total, b') e)))
        tt
  prepare_buys_ready (p ∷ ps) x b b' ready total good e =
      let (c, checked, e') =
        >>=-eq-ok (range_check fl config market p (terms_of fl config market p) b) _ e in
      let (d, rest, done) = >>=-eq-ok (prepare_buys fl config market ps _ c.1) _ e' in
      rw
        (← (
          ap (λ (r : List (Proposal F) × F × Books F). r.0)
            (ok_eq (if c.0 then p ∷ d.0 else d.0, d.1, d.2) (ready, total, b') done)))
        (if_passed c.0 d.0 (prepare_buys_ready ps _ c.1 d.2 d.0 d.1 good.1 rest))
    where
      if_passed :
          (passed : Bool) (rest : List (Proposal F))
          → All IsPurchase rest
          → All IsPurchase (if passed then p ∷ rest else rest)
      if_passed true rest h = (good.0, h)
      if_passed false rest h = h

  -- The loop over the sells makes ready only what is final.
  sell_quantity_ready :
      (p : Proposal F) (x : F) (n : Normalized F) (b : Books F)
      (rest : List (Ready fl config market))
      → IsSale p
      → final_quantity fl config market p.symbol x ≡ ok n
      → All IsReady rest
      → All IsReady (add_ready fl config market (sell_quantity fl config market p x n b).0 rest)
  sell_quantity_ready p x (executable q) b rest sold final good = ((refl, (x, final), sold), good)
  sell_quantity_ready p x (refused reason) b rest sold final good = good

  sell_checked_ready :
      (p : Proposal F) (passed : Bool) (b b' : Books F) (o : Option (Ready fl config market))
      (rest : List (Ready fl config market))
      → IsSale p
      → sell_checked fl config market p (passed, b) ≡ ok (o, b')
      → All IsReady rest
      → All IsReady (add_ready fl config market o rest)
  sell_checked_ready p false b b' o rest sold e good = rw (← ok-fst _ _ e) good
  sell_checked_ready p true b b' o rest sold e good =
      let x = f_min fl p.requested_quantity (held fl config market p b) in
      let (n, final, done) = >>=-eq-ok (final_quantity fl config market p.symbol x) _ e in
      rw (← ok-fst _ _ done) (sell_quantity_ready p x n b rest sold final good)

  pub prepare_sells_ready :
      (ps : List (Proposal F)) (b b' : Books F) (ready : List (Ready fl config market))
      → All IsSale ps
      → prepare_sells fl config market ps b ≡ ok (ready, b')
      → All IsReady ready
  unfolding prepare_sells prepare_sell
  prepare_sells_ready [] b b' ready good e = rw (← ok-fst _ _ e) tt
  prepare_sells_ready (p ∷ ps) b b' ready good e =
      let (c, first, e') = >>=-eq-ok (prepare_sell fl config market p b) _ e in
      let (d, rest, done) = >>=-eq-ok (prepare_sells fl config market ps c.1) _ e' in
      let (k, checked, made) =
        >>=-eq-ok (range_check fl config market p (terms_of fl config market p) b) _ first in
      rw (← ok-fst _ _ done) (
        sell_checked_ready p k.0 k.1 c.1 c.0 d.0 good.0 made
          (prepare_sells_ready ps c.1 d.1 d.0 good.1 rest))
