-- ===== src/Broker/Execute/Fill.antt =====
-- `persist_fill` of src/paper_broker.py: the rows of one fill.
use text.Mathlib.Text.{◌==◌ as str_eq}
use hermes_crypto_lab.Base.{
  String, none, some, Bool, if◌then◌else◌, List, ◌∷◌, any_of, Result, ok, err, constraint_violation,
}
use hermes_crypto_lab.Float.{FloatOps, f_zero}
use hermes_crypto_lab.Broker.{
  OrderSide, buy, sell, BrokerConfig, Market, Proposal, Terms, Position, Order, Books,
}
use hermes_crypto_lab.Broker.Execute.Checks.{position_of, put_position}

module _ (fl : FloatOps) (config : BrokerConfig fl.F) (market : Market fl.F) where
  open fl use {F, lt, le, plus, minus, times, over, absolute, negate, to_decimal}

  abbrev pub key_taken : String → List (Order F) → Bool
  key_taken key orders = any_of (λ o. str_eq o.idempotency_key key) orders

  abbrev pub no_position : Position F
  no_position = record { quantity = f_zero fl; average_cost = f_zero fl }

  abbrev pub current_position : String → Books F → Position F
  current_position symbol b = elim (position_of symbol b.positions) [
    | none ↦ no_position
    | some p ↦ p
  ]

  -- A quantity within the tolerance of zero is written as zero.
  abbrev pub snapped : F → F
  snapped x = if le (absolute x) config.quantity_tolerance then f_zero fl else x

  -- The rows of one fill, given the change of cash and of the position.
  unfoldable pub write_fill :
      Proposal F → F → Terms F → F → F → F → F → F → Books F → Result (Books F)
  write_fill p quantity terms fee cash_delta quantity_delta new_quantity new_average b =
      if key_taken p.idempotency_key b.orders
      then err constraint_violation
      else ok (record {
        cash = plus b.cash cash_delta;
        positions =
            put_position p.symbol
              (record { quantity = snapped new_quantity; average_cost = new_average }) b.positions;
        orders =
            record {
              idempotency_key = p.idempotency_key;
              symbol = p.symbol;
              side = p.side;
              requested_quantity = quantity;
              target_weight = p.target_weight;
            }
            ∷ b.orders;
        fills =
            record {
              idempotency_key = p.idempotency_key;
              symbol = p.symbol;
              side = p.side;
              quantity = quantity;
              market_price = terms.mid;
              execution_price = terms.execution_price;
              spread_cost = times quantity (absolute (minus terms.base_executable_price terms.mid));
              slippage_cost =
                  times quantity
                    (absolute (minus terms.execution_price terms.base_executable_price));
              fee = fee;
            }
            ∷ b.fills;
        cash_ledger =
            record { delta = cash_delta; balance = plus b.cash cash_delta } ∷ b.cash_ledger;
        position_ledger =
            record { symbol = p.symbol; delta = quantity_delta; balance = snapped new_quantity }
            ∷ b.position_ledger;
        rejections = b.rejections;
        decisions = b.decisions;
      })

  -- `persist_fill`
  unfoldable pub persist_fill : OrderSide → Proposal F → F → Terms F → Books F → Result (Books F)
  persist_fill sell p quantity terms b =
      let current = current_position p.symbol b in
      let notional = times quantity terms.execution_price in
      let fee = times notional config.fee_rate in
      let left = minus current.quantity quantity in
      write_fill p quantity terms fee (minus notional fee) (negate quantity) left
        (if lt config.quantity_tolerance left then current.average_cost else f_zero fl) b
  persist_fill buy p quantity terms b =
      let current = current_position p.symbol b in
      let notional = times quantity terms.execution_price in
      let fee = times notional config.fee_rate in
      let more = plus current.quantity quantity in
      write_fill p quantity terms fee (negate (plus notional fee)) quantity more
        (over
          (plus (times current.quantity current.average_cost)
            (times quantity terms.execution_price))
          more)
        b
