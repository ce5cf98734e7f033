-- ===== src/Broker/Ledgers.antt =====
-- The books after an execution: one order, fill and ledger row for each fill, no key twice, and
-- the account's cash and positions are the last balances of their ledgers.
use text.Mathlib.Text.{◌==◌ as str_eq}
use text.Mathlib.TextEquality.{eq_iff}
use hermes_crypto_lab.Base.{
  ◌≡◌, refl, String, Option, none, some, false, List, [], ◌∷◌, arith, ok, ap, if◌then◌else◌,
  Bool-cases, inl, inr, ok_eq, raise_if-passed, ◌∙◌,
}
use hermes_crypto_lab.Float.{FloatOps, f_zero, f_max}
use hermes_crypto_lab.Broker.{
  OrderSide, buy, sell, BrokerConfig, Market, Proposal, Terms, Position, Order, Fill, CashEntry,
  PositionEntry, Books, Rejection, RangeRecord,
}
use hermes_crypto_lab.Broker.Execute.{
  position_of, put_position, reject, note_decision, write_fill, persist_fill, key_taken, snapped,
  current_position, no_position, settle, execute,
}
use hermes_crypto_lab.Broker.Loops.{Keeps, execute_keeps}

module _ (fl : FloatOps) where
  open fl use {F, plus, le, absolute}

  abbrev pub last_cash : F → List (CashEntry F) → F
  last_cash start [] = start
  last_cash start (e ∷ rest) = e.balance

  -- Every balance is the one before it plus the change.
  abbrev pub IsChained : F → List (CashEntry F) → Type 0
  IsChained start [] = Unit
  IsChained start (e ∷ rest) =
      (e.balance ≡ plus (last_cash start rest) e.delta) × IsChained start rest

  -- A balance of a position that is within the tolerance of zero is zero.
  abbrev pub settled_balance : F → F → F
  settled_balance tolerance x = if le (absolute x) tolerance then f_zero fl else x

  abbrev pub or_zero : Option F → F
  or_zero none = f_zero fl
  or_zero (some x) = x

  -- The last balance of a symbol in the position ledger.
  abbrev pub last_position : String → List (PositionEntry F) → Option F
  last_position s [] = none
  last_position s (e ∷ rest) = if str_eq e.symbol s then some e.balance else last_position s rest

  abbrev pub position_quantity : Option (Position F) → Option F
  position_quantity none = none
  position_quantity (some p) = some p.quantity

module _ (fl : FloatOps) (config : BrokerConfig fl.F) (market : Market fl.F) where
  open fl use {F, lt, plus, minus, times, negate}

  -- What a fill does to cash and to the position, by the side of its order, with the cash and the
  -- quantity that were there before: a sale pays the notional less the fee and takes the quantity
  -- away; a purchase costs both, out of cash that is not below them, and adds the quantity.
  abbrev pub Moves :
      OrderSide → (cash held quantity notional fee : F) → CashEntry F → PositionEntry F → Type 0
  Moves sell cash held quantity notional fee c e =
      (c.delta ≡ minus notional fee)
      × (e.delta ≡ negate quantity)
      × (e.balance ≡ settled_balance fl config.quantity_tolerance (minus held quantity))
  Moves buy cash held quantity notional fee c e =
      (c.delta ≡ negate (plus notional fee))
      × (lt cash (plus notional fee) ≡ false)
      × (e.delta ≡ quantity)
      × (e.balance ≡ settled_balance fl config.quantity_tolerance (plus held quantity))

  -- The rows of one fill, over the cash and the quantity before it.
  pub record IsTied (cash held : F) (o : Order F) (f : Fill F) (c : CashEntry F)
      (e : PositionEntry F) : Type 0 where
    pub keys : f.idempotency_key ≡ o.idempotency_key
    pub symbols : (f.symbol ≡ o.symbol) × (e.symbol ≡ o.symbol)
    pub sides : f.side ≡ o.side
    pub quantities : f.quantity ≡ o.requested_quantity
    pub fees : f.fee ≡ times (times f.quantity f.execution_price) config.fee_rate
    pub moves : Moves o.side cash held f.quantity (times f.quantity f.execution_price) f.fee c e

  -- The four tables have one row to a fill, in the same order.
  abbrev pub AllTied :
      F → List (Order F) → List (Fill F) → List (CashEntry F) → List (PositionEntry F) → Type 0
  AllTied start [] [] [] [] = Unit
  AllTied start (o ∷ os) (f ∷ fs) (c ∷ cs) (e ∷ es) =
      IsTied (last_cash fl start cs) (or_zero fl (last_position fl o.symbol es)) o f c e
      × AllTied start os fs cs es
  AllTied _ _ _ _ _ = ⊥

  abbrev pub AllDistinct : List (Order F) → Type 0
  AllDistinct [] = Unit
  AllDistinct (o ∷ rest) =
      (key_taken fl config market o.idempotency_key rest ≡ false) × AllDistinct rest

  -- The ledgers since the account began with `start` and no position.
  pub record IsPosted (start : F) (b : Books F) : Type 0 where
    pub chained : IsChained fl start b.cash_ledger
    pub cash_posted : b.cash ≡ last_cash fl start b.cash_ledger
    pub distinct : AllDistinct b.orders
    pub tied : AllTied start b.orders b.fills b.cash_ledger b.position_ledger
    pub positions_posted :
        (s : String)
        → position_quantity fl (position_of s b.positions) ≡ last_position fl s b.position_ledger

  position_of-put :
      (s k : String) (p : Position F) (ps : List (String × Position F))
      → position_of s (put_position k p ps) ≡ (if str_eq k s then some p else position_of s ps)
  position_of-put s k p [] = refl
  position_of-put s k p ((t, q) ∷ rest) =
      ground (arith, eq_iff k s, eq_iff t k, eq_iff t s, position_of-put s k p rest)

  -- Rejections and decisions stand outside these tables.
  IsPosted-with :
      (start : F) (b : Books F) (rs : List (Rejection F)) (ds : List RangeRecord)
      → IsPosted start b
      → IsPosted start (record b { rejections = rs; decisions = ds })
  IsPosted-with start b rs ds h = record {
    chained = h.chained;
    cash_posted = h.cash_posted;
    distinct = h.distinct;
    tied = h.tied;
    positions_posted = h.positions_posted;
  }

  write_fill-IsPosted :
      (start : F) (p : Proposal F) (q : F) (t : Terms F) (fee dc dq nq na : F) (b b' : Books F)
      → IsPosted start b
      → fee ≡ times (times q t.execution_price) config.fee_rate
      → Moves p.side
          (last_cash fl start b.cash_ledger)
          (or_zero fl (last_position fl p.symbol b.position_ledger))
          q
          (times q t.execution_price)
          fee
          (record { delta = dc; balance = plus b.cash dc })
          (record {
            symbol = p.symbol;
            delta = dq;
            balance = settled_balance fl config.quantity_tolerance nq;
          })
      → write_fill fl config market p q t fee dc dq nq na b ≡ ok b'
      → IsPosted start b'
  unfolding write_fill
  write_fill-IsPosted start p q t fee dc dq nq na b b' h charged moving e =
      elim (Bool-cases (key_taken fl config market p.idempotency_key b.orders)) [
        | inl taken ↦ absurd (cc (rw taken at e))
        | inr fresh ↦ rw (← ok_eq _ _ (rw fresh at e)) (record {
          chained = (ap (λ (x : F). plus x dc) h.cash_posted, h.chained);
          cash_posted = refl;
          distinct = (fresh, h.distinct);
          tied = (
            record {
              keys = refl;
              symbols = (refl, refl);
              sides = refl;
              quantities = refl;
              fees = charged;
              moves = moving;
            },
            h.tied,
          );
          positions_posted = λ s.
              put_posted s (record { quantity = snapped fl config market nq; average_cost = na }) b
                h;
        })
      ]
    where
      put_posted :
          (s : String) (x : Position F) (b : Books F)
          → IsPosted start b
          → position_quantity fl (position_of s (put_position p.symbol x b.positions))
            ≡ (if str_eq p.symbol s then some x.quantity else last_position fl s b.position_ledger)
      put_posted s x b h =
          rw (position_of-put s p.symbol x b.positions) (ground (arith, h.positions_posted s))

  -- The quantity that a fill starts from is the last balance of its symbol.
  current-posted :
      (start : F) (s : String) (b : Books F)
      → IsPosted start b
      → (current_position fl config market s b).quantity
        ≡ or_zero fl (last_position fl s b.position_ledger)
  current-posted start s b h =
      quantity-or_zero (position_of s b.positions) ∙ ap (or_zero fl) (h.positions_posted s)
    where
      quantity-or_zero :
          (o : Option (Position F))
          → let current : Position F = elim o [
            | none ↦ no_position fl config market
            | some p ↦ p
          ] in
            current.quantity ≡ or_zero fl (position_quantity fl o)
      quantity-or_zero none = refl
      quantity-or_zero (some p) = refl

  sale-IsPosted :
      (start : F) (p : Proposal F) (q : F) (t : Terms F) (b b' : Books F)
      → IsPosted start b
      → p.side ≡ sell
      → persist_fill fl config market sell p q t b ≡ ok b'
      → IsPosted start b'
  unfolding persist_fill
  sale-IsPosted start p q t b b' h sold e =
      write_fill-IsPosted start p q t _ _ _ _ _ b b' h refl
        (rw (sold, current-posted start p.symbol b h) (refl, refl, refl)) e

  purchase-IsPosted :
      (start : F) (p : Proposal F) (q : F) (t : Terms F) (b b' : Books F)
      → IsPosted start b
      → p.side ≡ buy
      → (let notional = times q t.execution_price in
          lt b.cash (plus notional (times notional config.fee_rate)) ≡ false)
      → persist_fill fl config market buy p q t b ≡ ok b'
      → IsPosted start b'
  unfolding persist_fill
  purchase-IsPosted start p q t b b' h bought enough e =
      write_fill-IsPosted start p q t _ _ _ _ _ b b' h refl
        (rw (bought, ← h.cash_posted, current-posted start p.symbol b h) (refl, enough, refl, refl))
        e

  IsPosted-keeps : (start : F) → Keeps fl config market (IsPosted start)
  unfolding reject note_decision
  IsPosted-keeps start = record {
    on_reject = λ p reason n b h. IsPosted-with start b _ b.decisions h;
    on_note = λ p t d b h. IsPosted-with start b b.rejections _ h;
    on_sell = λ p q b b' h _ sold e. sale-IsPosted start p q _ b b' h sold e;
    on_buy = λ p q b b' h _ bought enough e. purchase-IsPosted start p q _ b b' h bought enough e;
  }

  -- An execution of reconciled tables that commits leaves them reconciled. No idempotency key has
  -- two orders. The orders, the fills and the two ledgers have one row to a fill, in the same order,
  -- and these agree: key, symbol, side and quantity of the fill are the order's; the fee is the
  -- notional times the fee rate; a sale adds the notional less the fee to cash and takes the
  -- quantity from the symbol's last balance; a purchase takes notional and fee from cash, which was
  -- not below them, and adds the quantity to that balance; a balance within the tolerance of zero is
  -- written as zero. Each cash balance is the one before it plus its change, every position has the
  -- last balance of its symbol, and the account has the last cash balance, or 0.0 where that is not
  -- above it.
  pub execute_reconciles :
      (start : F) (proposals : List (Proposal F)) (b b' : Books F)
      → IsPosted start b
      → execute fl config market proposals b ≡ ok b'
      → IsPosted start (record b' { cash = last_cash fl start b'.cash_ledger })
        × (b'.cash ≡ f_max fl (f_zero fl) (last_cash fl start b'.cash_ledger))
  unfolding settle
  execute_reconciles start proposals b b' h e =
      let (b4, posted, settled) =
        execute_keeps fl config market (IsPosted-keeps start) proposals b b'
          (IsPosted-with start b b.rejections [] h) e in
      let (_, done) = raise_if-passed _ _ _ settled in
      let settled_books : Books F = record b4 { cash = f_max fl (f_zero fl) b4.cash } in
      let same : settled_books ≡ b' = ok_eq settled_books b' done in rw (← same) (ended b4 posted)
    where
      ended :
          (b : Books F)
          → IsPosted start b
          → IsPosted start (record b { cash = last_cash fl start b.cash_ledger })
            × (f_max fl (f_zero fl) b.cash
                ≡ f_max fl (f_zero fl) (last_cash fl start b.cash_ledger))
      ended b h = (
        record {
          chained = h.chained;
          cash_posted = refl;
          distinct = h.distinct;
          tied = h.tied;
          positions_posted = h.positions_posted;
        },
        ap (f_max fl (f_zero fl)) h.cash_posted,
      )
