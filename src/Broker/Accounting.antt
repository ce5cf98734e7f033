-- ===== src/Broker/Accounting.antt =====
-- The orders and rejections that `_execute` leaves, counted by the idempotency key of the proposals.
use text.Mathlib.Text.{◌==◌ as str_eq}
use hermes_crypto_lab.Base.{
  ℕ, ◌+◌, ◌≡◌, refl, Option, none, some, Bool, true, false, List, [], ◌∷◌, arith, ok, String,
  if◌then◌else◌, >>=-eq-ok, raise_if-passed, Bool-cases, ◌⊎◌, inl, inr, ok-snd, ok-fst, ok_eq,
}
use hermes_crypto_lab.Float.{FloatOps, f_zero, f_max, f_min}
use hermes_crypto_lab.PriceRange.{PriceRangeDecision}
use hermes_crypto_lab.Quantity.{Normalized, executable, refused}
use hermes_crypto_lab.Broker.{
  OrderSide, buy, sell, BrokerConfig, Market, Proposal, Terms, Books, Order, Rejection,
}
use hermes_crypto_lab.Broker.Execute.{
  is_sell, sells_of, buys_of, blocks, reject, note_decision, range_decision, after_decision,
  range_check, range_check_if, final_quantity, terms_of, Ready, sell_quantity, sell_checked,
  prepare_sell, add_ready, prepare_sells, prepare_buys, key_taken, write_fill, persist_fill,
  persist_sells, buy_quantity, required_cash, place_buy, place_buys, scaled_buys, settle, execute,
  held,
}

module _ (fl : FloatOps) (config : BrokerConfig fl.F) (market : Market fl.F) (k : String) where
  open fl use {F, lt, times}

  -- Whether a row has the key.
  unfoldable pub hit : String → ℕ
  hit key = if str_eq key k then 1 else 0

  abbrev pub order_rows : List (Order F) → ℕ
  order_rows [] = 0
  order_rows (o ∷ os) = hit o.idempotency_key + order_rows os

  abbrev pub rejection_rows : List (Rejection F) → ℕ
  rejection_rows [] = 0
  rejection_rows (r ∷ rs) = hit r.idempotency_key + rejection_rows rs

  abbrev pub proposal_rows : List (Proposal F) → ℕ
  proposal_rows [] = 0
  proposal_rows (p ∷ ps) = hit p.idempotency_key + proposal_rows ps

  -- The orders and rejections that have the key.
  abbrev pub settled_rows : Books F → ℕ
  settled_rows b = order_rows b.orders + rejection_rows b.rejections

  abbrev passed_rows : Proposal F → Bool → ℕ
  passed_rows p true = hit p.idempotency_key
  passed_rows p false = 0

  abbrev option_rows : Option (Ready fl config market) → ℕ
  option_rows none = 0
  option_rows (some (p, q, t)) = hit p.idempotency_key

  abbrev ready_rows : List (Ready fl config market) → ℕ
  ready_rows [] = 0
  ready_rows ((p, q, t) ∷ rest) = hit p.idempotency_key + ready_rows rest

  after_decision_rows :
      (p : Proposal F) (t : Terms F) (d : PriceRangeDecision) (b : Books F)
      → let (passed, b') = after_decision fl config market p t d b in
        passed_rows p passed + settled_rows b' ≡ hit p.idempotency_key + settled_rows b
  unfolding reject note_decision
  after_decision_rows p t d b = elim (Bool-cases (blocks d.outcome)) [
    | inl stop ↦ rw stop (omega arith)
    | inr go ↦ rw go refl
  ]

  range_check_rows :
      (required : Bool) (p : Proposal F) (t : Terms F) (b : Books F) (c : Bool × Books F)
      → range_check_if fl config market required p t b ≡ ok c
      → passed_rows p c.0 + settled_rows c.1 ≡ hit p.idempotency_key + settled_rows b
  unfolding range_check_if
  range_check_rows false p t b c e = rw (← ok_eq _ _ e) refl
  range_check_rows true p t b c e =
      let (d, _, done) = >>=-eq-ok (range_decision fl config market p t) _ e in
      rw (← ok_eq _ _ done) (after_decision_rows p t d b)

  sell_quantity_rows :
      (p : Proposal F) (x : F) (n : Normalized F) (b : Books F)
      → let (o, b') = sell_quantity fl config market p x n b in
        option_rows o + settled_rows b' ≡ hit p.idempotency_key + settled_rows b
  unfolding reject
  sell_quantity_rows p x (executable q) b = refl
  sell_quantity_rows p x (refused r) b = omega arith

  sell_checked_rows :
      (p : Proposal F) (c : Bool × Books F) (b' : Books F) (o : Option (Ready fl config market))
      → sell_checked fl config market p c ≡ ok (o, b')
      → option_rows o + settled_rows b' ≡ passed_rows p c.0 + settled_rows c.1
  sell_checked_rows p (false, b) b' o e = rw (← ok-snd _ _ e, ← ok-fst _ _ e) refl
  sell_checked_rows p (true, b) b' o e =
      let x = f_min fl p.requested_quantity (held fl config market p b) in
      let (n, _, done) = >>=-eq-ok (final_quantity fl config market p.symbol x) _ e in
      rw (← ok-snd _ _ done, ← ok-fst _ _ done) (sell_quantity_rows p x n b)

  ready_rows-add_ready :
      (o : Option (Ready fl config market)) (rest : List (Ready fl config market))
      → ready_rows (add_ready fl config market o rest) ≡ option_rows o + ready_rows rest
  ready_rows-add_ready none rest = omega arith
  ready_rows-add_ready (some (p, q, t)) rest = refl

  prepare_sells_rows :
      (ps : List (Proposal F)) (b b' : Books F) (ready : List (Ready fl config market))
      → prepare_sells fl config market ps b ≡ ok (ready, b')
      → ready_rows ready + settled_rows b' ≡ proposal_rows ps + settled_rows b
  unfolding prepare_sells prepare_sell
  prepare_sells_rows [] b b' ready e = rw (← ok-snd _ _ e, ← ok-fst _ _ e) refl
  prepare_sells_rows (p ∷ ps) b b' ready e =
      let (c, first, e') = >>=-eq-ok (prepare_sell fl config market p b) _ e in
      let (d, rest, done) = >>=-eq-ok (prepare_sells fl config market ps c.1) _ e' in
      let (k, checked, made) =
        >>=-eq-ok (range_check fl config market p (terms_of fl config market p) b) _ first in
      let at_first = range_check_rows _ p _ b k checked in
      let at_sell = sell_checked_rows p k c.1 c.0 made in
      let at_rest = prepare_sells_rows ps c.1 d.1 d.0 rest in
      rw (← ok-snd _ _ done, ← ok-fst _ _ done) (omega (arith, ready_rows-add_ready c.0 d.0))

  proposal_rows-if :
      (passed : Bool) (p : Proposal F) (ready : List (Proposal F))
      → proposal_rows (if passed then p ∷ ready else ready)
        ≡ passed_rows p passed + proposal_rows ready
  proposal_rows-if true p ready = refl
  proposal_rows-if false p ready = omega arith

  prepare_buys_rows :
      (ps : List (Proposal F)) (x : F) (b : Books F) (r : List (Proposal F) × F × Books F)
      → prepare_buys fl config market ps x b ≡ ok r
      → proposal_rows r.0 + settled_rows r.2 ≡ proposal_rows ps + settled_rows b
  unfolding prepare_buys
  prepare_buys_rows [] x b r e = rw (← ok_eq _ _ e) refl
  prepare_buys_rows (p ∷ ps) x b r e =
      let (c, checked, e') =
        >>=-eq-ok (range_check fl config market p (terms_of fl config market p) b) _ e in
      let (d, rest, done) = >>=-eq-ok (prepare_buys fl config market ps _ c.1) _ e' in
      let at_first = range_check_rows _ p _ b c checked in
      let at_rest = prepare_buys_rows ps _ c.1 d rest in
      rw (← ok_eq _ _ done) (omega (arith, proposal_rows-if c.0 p d.0))

  persist_fill_rows :
      (side : OrderSide) (p : Proposal F) (q : F) (t : Terms F) (b b' : Books F)
      → persist_fill fl config market side p q t b ≡ ok b'
      → settled_rows b' ≡ hit p.idempotency_key + settled_rows b
  unfolding persist_fill write_fill
  persist_fill_rows side p q t b b' e =
      elim (Bool-cases (key_taken fl config market p.idempotency_key b.orders)) [
        | inl taken ↦ absurd (no_order side taken e)
        | inr fresh ↦ one_order side fresh e
      ]
    where
      no_order :
          (side : OrderSide)
          → key_taken fl config market p.idempotency_key b.orders ≡ true
          → persist_fill fl config market side p q t b ≡ ok b'
          → ⊥
      no_order buy taken e = cc (rw taken at e)
      no_order sell taken e = cc (rw taken at e)

      one_order :
          (side : OrderSide)
          → key_taken fl config market p.idempotency_key b.orders ≡ false
          → persist_fill fl config market side p q t b ≡ ok b'
          → settled_rows b' ≡ hit p.idempotency_key + settled_rows b
      one_order buy fresh e = rw (← ok_eq _ _ (rw fresh at e)) (omega arith)
      one_order sell fresh e = rw (← ok_eq _ _ (rw fresh at e)) (omega arith)

  persist_sells_rows :
      (ready : List (Ready fl config market)) (b b' : Books F)
      → persist_sells fl config market ready b ≡ ok b'
      → settled_rows b' ≡ ready_rows ready + settled_rows b
  unfolding persist_sells
  persist_sells_rows [] b b' e = rw (← ok_eq _ _ e) (omega arith)
  persist_sells_rows ((p, q, t) ∷ rest) b b' e =
      let (c, first, done) = >>=-eq-ok (persist_fill fl config market sell p q t b) _ e in
      omega (arith, persist_fill_rows sell p q t b c first, persist_sells_rows rest c b' done)

  buy_quantity_rows :
      (p : Proposal F) (x : F) (n : Normalized F) (b b' : Books F)
      → buy_quantity fl config market p x n b ≡ ok b'
      → settled_rows b' ≡ hit p.idempotency_key + settled_rows b
  unfolding reject
  buy_quantity_rows p x (refused reason) b b' e = rw (← ok_eq _ _ e) (omega arith)
  buy_quantity_rows p x (executable q) b b' e =
      elim (Bool-cases (lt b.cash (required_cash fl config market p q))) [
        | inl short ↦ rw (← ok_eq _ _ (rw short at e)) (omega arith)
        | inr enough ↦ persist_fill_rows buy p q _ b b' (rw enough at e)
      ]

  place_buys_rows :
      (scale : F) (ps : List (Proposal F)) (b b' : Books F)
      → place_buys fl config market scale ps b ≡ ok b'
      → settled_rows b' ≡ proposal_rows ps + settled_rows b
  unfolding place_buys place_buy
  place_buys_rows scale [] b b' e = rw (← ok_eq _ _ e) (omega arith)
  place_buys_rows scale (p ∷ ps) b b' e =
      let (c, placed, done) = >>=-eq-ok (place_buy fl config market scale p b) _ e in
      let x = times p.requested_quantity scale in
      let (n, _, filled) = >>=-eq-ok (final_quantity fl config market p.symbol x) _ placed in
      omega (arith, buy_quantity_rows p x n b c filled, place_buys_rows scale ps c b' done)

  sides_rows :
      (ps : List (Proposal F))
      → proposal_rows (sells_of ps) + proposal_rows (buys_of ps) ≡ proposal_rows ps
  unfolding sells_of buys_of
  sides_rows [] = refl
  sides_rows (p ∷ ps) = elim (Bool-cases (is_sell p.side)) [
    | inl s ↦ rw s (omega (arith, sides_rows ps))
    | inr s ↦ rw s (omega (arith, sides_rows ps))
  ]

  settle_rows :
      (b b' : Books F) → settle fl config market b ≡ ok b' → settled_rows b' ≡ settled_rows b
  unfolding settle
  settle_rows b b' e =
      let (_, done) = raise_if-passed _ _ _ e in
      let settled_books : Books F = record b { cash = f_max fl (f_zero fl) b.cash } in
      let same : settled_books ≡ b' = ok_eq settled_books b' done in rw (← same) refl

  scaled_buys_rows :
      (required : F) (ready : List (Proposal F)) (b b' : Books F)
      → scaled_buys fl config market required ready b ≡ ok b'
      → (settled_rows b' ≡ proposal_rows ready + settled_rows b)
        ⊎ ((lt (f_zero fl) required ≡ false) × (settled_rows b' ≡ settled_rows b))
  unfolding scaled_buys
  scaled_buys_rows required ready b b' e = elim (Bool-cases (lt (f_zero fl) required)) [
    | inl needed ↦ inl (place_buys_rows _ ready b b' (rw needed at e))
    | inr none_needed ↦ inr (none_needed, (rw (← ok_eq _ _ (rw none_needed at e)) refl))
  ]

  -- For every idempotency key, an execution that commits leaves as many orders and rejections with
  -- it as there were before, and one more for each proposal that has the key. The one exception is
  -- an execution in which the sum that the buys need, as the loop over the buys returns it, is not
  -- above 0.0: the buys that this loop let through then have no row, and every other proposal has
  -- its own.
  pub execute_accounts :
      (proposals : List (Proposal F)) (b b' : Books F)
      → execute fl config market proposals b ≡ ok b'
      → (settled_rows b' ≡ proposal_rows proposals + settled_rows b)
        ⊎ ((sales : List (Ready fl config market)) × (b1 : Books F) × (left : List (Proposal F))
            × (required : F) × (b2 : Books F) × (prepare_sells fl config market
                  (sells_of proposals)
                  (record b { decisions = [] })
                ≡ ok (sales, b1))
            × (prepare_buys fl config market (buys_of proposals) (f_zero fl) b1
                ≡ ok (left, required, b2))
            × (lt (f_zero fl) required ≡ false)
            × (settled_rows b' + proposal_rows left ≡ proposal_rows proposals + settled_rows b))
  unfolding execute
  execute_accounts proposals b b' e =
      let b0 : Books F = record b { decisions = [] } in
      let (s, sells, e1) = >>=-eq-ok (prepare_sells fl config market (sells_of proposals) b0) _ e in
      let (t, buys, e2) =
        >>=-eq-ok (prepare_buys fl config market (buys_of proposals) (f_zero fl) s.1) _ e1 in
      let (b3, sold, e3) = >>=-eq-ok (persist_sells fl config market s.0 t.2) _ e2 in
      let (b4, bought, e4) = >>=-eq-ok (scaled_buys fl config market t.1 t.0 b3) _ e3 in
      let at_sells = prepare_sells_rows (sells_of proposals) b0 s.1 s.0 sells in
      let at_buys = prepare_buys_rows (buys_of proposals) _ s.1 t buys in
      let at_sold = persist_sells_rows s.0 t.2 b3 sold in
      let at_end = settle_rows b4 b' e4 in
      let sides = sides_rows proposals in
      elim (scaled_buys_rows t.1 t.0 b3 b4 bought) [
        | inl placed ↦ inl (omega arith)
        | inr (none_needed, kept) ↦
            inr (s.0, s.1, t.0, t.1, t.2, sells, buys, none_needed, omega arith)
      ]
