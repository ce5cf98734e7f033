-- ===== src/Broker/Execute.antt =====
-- The transaction of `PaperTradingSystem._execute` of src/paper_broker.py, from the split into
-- sells and buys to the update of the account. An exception leaves the database as it was: the
-- connection closes without COMMIT. The evidence and diagnostics that are written on the way
-- change neither cash, positions, orders nor rejections, and are not modelled.
mod Checks
mod Fill
use text.Mathlib.Text.{◌==◌ as str_eq}
use hermes_crypto_lab.Base.{
  ℕ, String, Option, none, some, Bool, true, false, not, if◌then◌else◌, List, [], ◌∷◌, any_of,
  keep_if, Result, ok, err, runtime_error, constraint_violation, raise_if, ◌>>=◌, ◌>>◌, ◌==◌, ltb,
  ◌||◌,
}
use hermes_crypto_lab.Float.{FloatOps, f_zero, f_one, f_max, f_min}
use hermes_crypto_lab.PriceRange.{
  PriceRangeRuleEvidence, transport_failure, PriceRangeDecision, RangeOutcome, accepted, rejected,
  not_enforced, evidence_unavailable, usable_reference, evaluate_price_range_rule,
}
use hermes_crypto_lab.Quantity.{Normalized, executable, refused, normalize_exchange_quantity}
use hermes_crypto_lab.Broker.{
  OrderSide, buy, sell, range_side, BrokerConfig, Market, Proposal, Terms, Position, Order, Books,
  execution_terms, market_rule_reference_price, as_argument,
}
unfoldable pub use Checks.*
unfoldable pub use Fill.*

module _ (fl : FloatOps) (config : BrokerConfig fl.F) (market : Market fl.F) where
  open fl use {F, lt, le, plus, minus, times, over, absolute, negate, to_decimal}

  -- An order that is ready to be filled: the proposal, the final quantity and the terms.
  abbrev pub Ready : Type 0
  Ready = Proposal F × F × Terms F

  -- One round of the loop over the sells.
  abbrev pub sell_quantity : Proposal F → F → Normalized F → Books F → Option Ready × Books F
  sell_quantity p requested (executable quantity) b =
      (some (p, quantity, terms_of fl config market p), b)
  sell_quantity p requested (refused reason) b = (
    none,
    reject fl config market p reason (times requested (terms_of fl config market p).execution_price)
        b,
  )

  abbrev pub sell_checked : Proposal F → Bool × Books F → Result (Option Ready × Books F)
  sell_checked p (false, b) = ok (none, b)
  sell_checked p (true, b) = do
    let requested = f_min fl p.requested_quantity (held fl config market p b)
    normalized ← final_quantity fl config market p.symbol requested
    ok (sell_quantity p requested normalized b)

  unfoldable pub prepare_sell : Proposal F → Books F → Result (Option Ready × Books F)
  prepare_sell p b = do
    checked ← range_check fl config market p (terms_of fl config market p) b
    sell_checked p checked

  abbrev pub add_ready {ℓ} : {A : Type ℓ} → Option A → List A → List A
  add_ready none rest = rest
  add_ready (some x) rest = x ∷ rest

  unfoldable pub prepare_sells : List (Proposal F) → Books F → Result (List Ready × Books F)
  prepare_sells [] b = ok ([], b)
  prepare_sells (p ∷ ps) b = do
    (first, b') ← prepare_sell p b
    (rest, b'') ← prepare_sells ps b'
    ok (add_ready first rest, b'')

  -- The loop that sums what the buys need. A buy that is blocked has no terms; the keys of the
  -- proposals are distinct, so the terms by key are the terms of each buy.
  abbrev pub cost_of : Proposal F → F
  cost_of p =
      times (times p.requested_quantity (terms_of fl config market p).execution_price)
        (plus (f_one fl) config.fee_rate)

  unfoldable pub prepare_buys :
      List (Proposal F) → F → Books F → Result (List (Proposal F) × F × Books F)
  prepare_buys [] required b = ok ([], required, b)
  prepare_buys (p ∷ ps) required b = do
    (passed, b') ← range_check fl config market p (terms_of fl config market p) b
    (ready, total, b'') ←
        prepare_buys ps (if passed then plus required (cost_of p) else required) b'
    ok (if passed then p ∷ ready else ready, total, b'')

  unfoldable pub persist_sells : List Ready → Books F → Result (Books F)
  persist_sells [] b = ok b
  persist_sells ((p, quantity, terms) ∷ rest) b = do
    b' ← persist_fill fl config market sell p quantity terms b
    persist_sells rest b'

  -- What a buy of a final quantity needs: its notional and the fee.
  abbrev pub required_cash : Proposal F → F → F
  required_cash p quantity =
      let notional = times quantity (terms_of fl config market p).execution_price in
      plus notional (times notional config.fee_rate)

  abbrev pub buy_quantity : Proposal F → F → Normalized F → Books F → Result (Books F)
  buy_quantity p scaled (refused reason) b = ok (
      reject fl config market p reason (times scaled (terms_of fl config market p).execution_price)
        b)
  buy_quantity p scaled (executable quantity) b =
      if lt b.cash (required_cash p quantity)
      then ok (
          reject fl config market p "insufficient_cash_after_rounding"
            (times quantity (terms_of fl config market p).execution_price) b)
      else persist_fill fl config market buy p quantity (terms_of fl config market p) b

  -- One round of the loop over the scaled buys.
  unfoldable pub place_buy : F → Proposal F → Books F → Result (Books F)
  place_buy scale p b = do
    let scaled = times p.requested_quantity scale
    normalized ← final_quantity fl config market p.symbol scaled
    buy_quantity p scaled normalized b

  unfoldable pub place_buys : F → List (Proposal F) → Books F → Result (Books F)
  place_buys scale [] b = ok b
  place_buys scale (p ∷ ps) b = do b' ← place_buy scale p b; place_buys scale ps b'

  unfoldable pub scaled_buys : F → List (Proposal F) → Books F → Result (Books F)
  scaled_buys required ready b =
      if lt (f_zero fl) required
      then place_buys (f_min fl (f_one fl) (over b.cash required)) ready b
      else ok b

  unfoldable pub settle : Books F → Result (Books F)
  settle b = do
    raise_if (lt b.cash (f_zero fl)) (runtime_error "Negative cash invariant violated")
    ok (record b { cash = f_max fl (f_zero fl) b.cash })

  unfoldable pub execute : List (Proposal F) → Books F → Result (Books F)
  execute proposals b = do
    (sales, b1) ← prepare_sells (sells_of proposals) (record b { decisions = [] })
    (ready, required, b2) ← prepare_buys (buys_of proposals) (f_zero fl) b1
    b3 ← persist_sells sales b2
    b4 ← scaled_buys required ready b3
    settle b4

-- `classify_execution_outcome`
pub data ExecutionOutcome : Type 0 where
  no_rebalance_required execution_rejected partial_execution full_execution : ExecutionOutcome

unfoldable pub classify_execution_outcome : ℕ → ℕ → ℕ → ExecutionOutcome
classify_execution_outcome proposed executed rejections =
    if proposed == 0
    then no_rebalance_required
    else if executed == 0
    then execution_rejected
    else if not (rejections == 0) || ltb executed proposed
    then partial_execution
    else full_execution
