-- ===== src/Broker/Loops.antt =====
-- The loops of `_execute` keep every property that a rejection, a recorded decision and a fill
-- keep.
use hermes_crypto_lab.Base.{
  ◌≡◌, Option, Bool, true, false, List, [], ◌∷◌, ok, String, >>=-eq-ok, Bool-cases, inl, inr,
  ok-snd, ok-last, ok_eq, All,
}
use hermes_crypto_lab.Float.{FloatOps, f_zero, f_min}
use hermes_crypto_lab.PriceRange.{PriceRangeDecision}
use hermes_crypto_lab.Quantity.{Normalized, executable, refused}
use hermes_crypto_lab.Broker.{buy, sell, BrokerConfig, Market, Proposal, Terms, Books}
use hermes_crypto_lab.Broker.Execute.{
  blocks, reject, note_decision, range_decision, after_decision, range_check, range_check_if,
  final_quantity, terms_of, Ready, sell_quantity, sell_checked, prepare_sell, prepare_sells,
  prepare_buys, persist_fill, persist_sells, buy_quantity, place_buy, place_buys, scaled_buys,
  settle, execute, sells_of, buys_of, required_cash, held,
}
use hermes_crypto_lab.Broker.Ready.{
  IsFinal, IsReady, IsPurchase, sells_of-IsSale, buys_of-IsPurchase, prepare_buys_ready,
  prepare_sells_ready,
}

module _ (fl : FloatOps) (config : BrokerConfig fl.F) (market : Market fl.F) where
  open fl use {F, lt, times}

  -- A property that the steps keep. A buy is filled only if the cash covers what it needs.
  pub record Keeps (P : Books F → Type 0) : Type 0 where
    pub on_reject :
        (p : Proposal F) (reason : String) (n : F) (b : Books F)
        → P b
        → P (reject fl config market p reason n b)
    pub on_note :
        (p : Proposal F) (t : Terms F) (d : PriceRangeDecision) (b : Books F)
        → P b
        → P (note_decision fl config market p t d b)
    pub on_sell :
        (p : Proposal F) (q : F) (b b' : Books F)
        → P b
        → IsFinal fl config market p.symbol q
        → p.side ≡ sell
        → persist_fill fl config market sell p q (terms_of fl config market p) b ≡ ok b'
        → P b'
    pub on_buy :
        (p : Proposal F) (q : F) (b b' : Books F)
        → P b
        → IsFinal fl config market p.symbol q
        → p.side ≡ buy
        → lt b.cash (required_cash fl config market p q) ≡ false
        → persist_fill fl config market buy p q (terms_of fl config market p) b ≡ ok b'
        → P b'

  module _ {P : Books F → Type 0} (keeps : Keeps P) where
    after_decision_keeps :
        (p : Proposal F) (t : Terms F) (d : PriceRangeDecision) (b : Books F)
        → P b
        → P (after_decision fl config market p t d b).1
    after_decision_keeps p t d b h = elim (Bool-cases (blocks d.outcome)) [
      | inl stop ↦ rw stop (keeps.on_reject p _ _ _ (keeps.on_note p t d b h))
      | inr go ↦ rw go (keeps.on_note p t d b h)
    ]

    range_check_keeps :
        (required : Bool) (p : Proposal F) (t : Terms F) (b b' : Books F) (passed : Bool)
        → P b
        → range_check_if fl config market required p t b ≡ ok (passed, b')
        → P b'
    unfolding range_check_if
    range_check_keeps false p t b b' passed h e = rw (← ok-snd _ _ e) h
    range_check_keeps true p t b b' passed h e =
        let (d, _, done) = >>=-eq-ok (range_decision fl config market p t) _ e in
        rw (← ok-snd _ _ done) (after_decision_keeps p t d b h)

    sell_quantity_keeps :
        (p : Proposal F) (x : F) (n : Normalized F) (b : Books F)
        → P b
        → P (sell_quantity fl config market p x n b).1
    sell_quantity_keeps p x (executable q) b h = h
    sell_quantity_keeps p x (refused reason) b h = keeps.on_reject p reason _ b h

    sell_checked_keeps :
        (p : Proposal F) (passed : Bool) (b b' : Books F) (o : Option (Ready fl config market))
        → P b
        → sell_checked fl config market p (passed, b) ≡ ok (o, b')
        → P b'
    sell_checked_keeps p false b b' o h e = rw (← ok-snd _ _ e) h
    sell_checked_keeps p true b b' o h e =
        let x = f_min fl p.requested_quantity (held fl config market p b) in
        let (n, _, done) = >>=-eq-ok (final_quantity fl config market p.symbol x) _ e in
        rw (← ok-snd _ _ done) (sell_quantity_keeps p x n b h)

    prepare_sell_keeps :
        (p : Proposal F) (b b' : Books F) (o : Option (Ready fl config market))
        → P b
        → prepare_sell fl config market p b ≡ ok (o, b')
        → P b'
    unfolding prepare_sell
    prepare_sell_keeps p b b' o h e =
        let (c, checked, done) =
          >>=-eq-ok (range_check fl config market p (terms_of fl config market p) b) _ e in
        sell_checked_keeps p c.0 c.1 b' o (range_check_keeps _ p _ b c.1 c.0 h checked) done

    prepare_sells_keeps :
        (ps : List (Proposal F)) (b b' : Books F) (ready : List (Ready fl config market))
        → P b
        → prepare_sells fl config market ps b ≡ ok (ready, b')
        → P b'
    unfolding prepare_sells
    prepare_sells_keeps [] b b' ready h e = rw (← ok-snd _ _ e) h
    prepare_sells_keeps (p ∷ ps) b b' ready h e =
        let (c, first, e') = >>=-eq-ok (prepare_sell fl config market p b) _ e in
        let (d, rest, done) = >>=-eq-ok (prepare_sells fl config market ps c.1) _ e' in
        let kept =
          prepare_sells_keeps ps c.1 d.1 d.0 (prepare_sell_keeps p b c.1 c.0 h first) rest in
        rw (← ok-snd _ _ done) kept

    prepare_buys_keeps :
        (ps : List (Proposal F)) (x : F) (b b' : Books F) (ready : List (Proposal F)) (total : F)
        → P b
        → prepare_buys fl config market ps x b ≡ ok (ready, total, b')
        → P b'
    unfolding prepare_buys
    prepare_buys_keeps [] x b b' ready total h e = rw (← ok-last _ _ e) h
    prepare_buys_keeps (p ∷ ps) x b b' ready total h e =
        let (c, checked, e') =
          >>=-eq-ok (range_check fl config market p (terms_of fl config market p) b) _ e in
        let (d, rest, done) = >>=-eq-ok (prepare_buys fl config market ps _ c.1) _ e' in
        let kept =
          prepare_buys_keeps ps _ c.1 d.2 d.0 d.1 (range_check_keeps _ p _ b c.1 c.0 h checked)
            rest in
        rw (← ok-last _ _ done) kept

    persist_sells_keeps :
        (ready : List (Ready fl config market)) (b b' : Books F)
        → All (IsReady fl config market) ready
        → P b
        → persist_sells fl config market ready b ≡ ok b'
        → P b'
    unfolding persist_sells
    persist_sells_keeps [] b b' good h e = rw (← ok_eq _ _ e) h
    persist_sells_keeps ((p, q, t) ∷ rest) b b' good h e =
        let (c, first, done) = >>=-eq-ok (persist_fill fl config market sell p q t b) _ e in
        let own : persist_fill fl config market sell p q (terms_of fl config market p) b ≡ ok c =
          rw (← good.0.0) first in
        persist_sells_keeps rest c b' good.1 (keeps.on_sell p q b c h good.0.1 good.0.2 own) done

    buy_quantity_keeps :
        (p : Proposal F) (x : F) (n : Normalized F) (b b' : Books F)
        → final_quantity fl config market p.symbol x ≡ ok n
        → IsPurchase fl config market p
        → P b
        → buy_quantity fl config market p x n b ≡ ok b'
        → P b'
    buy_quantity_keeps p x (refused reason) b b' final bought h e =
        rw (← ok_eq _ _ e) (keeps.on_reject p reason _ b h)
    buy_quantity_keeps p x (executable q) b b' final bought h e =
        elim (Bool-cases (lt b.cash (required_cash fl config market p q))) [
          | inl short ↦ rw (← ok_eq _ _ (rw short at e)) (keeps.on_reject p _ _ b h)
          | inr enough ↦ keeps.on_buy p q b b' h (x, final) bought enough (rw enough at e)
        ]

    place_buys_keeps :
        (scale : F) (ps : List (Proposal F)) (b b' : Books F)
        → All (IsPurchase fl config market) ps
        → P b
        → place_buys fl config market scale ps b ≡ ok b'
        → P b'
    unfolding place_buys place_buy
    place_buys_keeps scale [] b b' good h e = rw (← ok_eq _ _ e) h
    place_buys_keeps scale (p ∷ ps) b b' good h e =
        let (c, placed, done) = >>=-eq-ok (place_buy fl config market scale p b) _ e in
        let x = times p.requested_quantity scale in
        let (n, final, filled) = >>=-eq-ok (final_quantity fl config market p.symbol x) _ placed in
        place_buys_keeps scale ps c b' good.1 (buy_quantity_keeps p x n b c final good.0 h filled)
          done

    scaled_buys_keeps :
        (required : F) (ready : List (Proposal F)) (b b' : Books F)
        → All (IsPurchase fl config market) ready
        → P b
        → scaled_buys fl config market required ready b ≡ ok b'
        → P b'
    unfolding scaled_buys
    scaled_buys_keeps required ready b b' good h e = elim (Bool-cases (lt (f_zero fl) required)) [
      | inl some_needed ↦ place_buys_keeps _ ready b b' good h (rw some_needed at e)
      | inr none_needed ↦ rw (← ok_eq _ _ (rw none_needed at e)) h
    ]

  -- Before the account is settled, every property that the steps keep holds.
  pub execute_keeps :
      {P : Books F → Type 0} (keeps : Keeps P) (proposals : List (Proposal F)) (b b' : Books F)
      → P (record b { decisions = [] })
      → execute fl config market proposals b ≡ ok b'
      → (b4 : Books F) × P b4 × (settle fl config market b4 ≡ ok b')
  unfolding execute
  execute_keeps keeps proposals b b' h e =
      let b0 : Books F = record b { decisions = [] } in
      let (s, sells, e1) = >>=-eq-ok (prepare_sells fl config market (sells_of proposals) b0) _ e in
      let (t, buys, e2) =
        >>=-eq-ok (prepare_buys fl config market (buys_of proposals) (f_zero fl) s.1) _ e1 in
      let (b3, sold, e3) = >>=-eq-ok (persist_sells fl config market s.0 t.2) _ e2 in
      let (b4, bought, e4) = >>=-eq-ok (scaled_buys fl config market t.1 t.0 b3) _ e3 in
      let h1 = prepare_sells_keeps keeps (sells_of proposals) b0 s.1 s.0 h sells in
      let h2 = prepare_buys_keeps keeps (buys_of proposals) _ s.1 t.2 t.0 t.1 h1 buys in
      let ready =
        prepare_sells_ready fl config market (sells_of proposals) b0 s.1 s.0
          (sells_of-IsSale fl config market proposals) sells in
      let bought_ready =
        prepare_buys_ready fl config market (buys_of proposals) _ s.1 t.2 t.0 t.1
          (buys_of-IsPurchase fl config market proposals) buys in
      let h3 = persist_sells_keeps keeps s.0 t.2 b3 ready h2 sold in
      (b4, scaled_buys_keeps keeps t.1 t.0 b3 b4 bought_ready h3 bought, e4)
