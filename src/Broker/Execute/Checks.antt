-- ===== src/Broker/Execute/Checks.antt =====
-- The local steps of `_execute` of src/paper_broker.py before an order is ready: the split by side, the
-- rejection, the PRICE_RANGE check and the final quantity.
use text.Mathlib.Text.{◌==◌ as str_eq}
use hermes_crypto_lab.Base.{
  String, Option, none, some, Bool, true, false, not, if◌then◌else◌, List, [], ◌∷◌, keep_if, Result,
  ok, ◌>>=◌,
}
use hermes_crypto_lab.Float.{FloatOps, f_zero}
use hermes_crypto_lab.PriceRange.{
  PriceRangeRuleEvidence, transport_failure, PriceRangeDecision, RangeOutcome, accepted, rejected,
  not_enforced, evidence_unavailable, usable_reference, evaluate_price_range_rule,
}
use hermes_crypto_lab.Quantity.{Normalized, normalize_exchange_quantity}
use hermes_crypto_lab.Broker.{
  OrderSide, buy, sell, range_side, BrokerConfig, Market, Proposal, Terms, Position, Books,
  execution_terms, market_rule_reference_price, as_argument,
}

abbrev pub is_sell : OrderSide → Bool
is_sell sell = true
is_sell buy = false

module _ {F : Type 0} where
  -- `[p for p in proposals if p["side"] == "SELL"]`, and the buys
  unfoldable pub sells_of : List (Proposal F) → List (Proposal F)
  sells_of = keep_if (λ p. is_sell p.side)

  unfoldable pub buys_of : List (Proposal F) → List (Proposal F)
  buys_of = keep_if (λ p. not (is_sell p.side))

  -- `positions.get(symbol)` and `positions[symbol] = ...`
  abbrev pub position_of : String → List (String × Position F) → Option (Position F)
  position_of s [] = none
  position_of s ((t, p) ∷ rest) = if str_eq t s then some p else position_of s rest

  abbrev pub put_position :
      String → Position F → List (String × Position F) → List (String × Position F)
  put_position s p [] = (s, p) ∷ []
  put_position s p ((t, q) ∷ rest) =
      if str_eq t s then (s, p) ∷ rest else (t, q) ∷ put_position s p rest

-- Evidence that the snapshot lacks counts as a failed transport.
abbrev pub evidence_or_failure : String → Option PriceRangeRuleEvidence → PriceRangeRuleEvidence
evidence_or_failure symbol (some evidence) = evidence
evidence_or_failure symbol none = record {
  symbol = symbol;
  native_symbol = none;
  status = transport_failure;
  price_range_present = none;
  bid_limit_mult_up = none;
  bid_limit_mult_down = none;
  ask_limit_mult_up = none;
  ask_limit_mult_down = none;
  source_timestamp = none;
  acquired_at = none;
}

-- `range_decision.outcome in {"REJECTED", "EVIDENCE_UNAVAILABLE"}`
abbrev pub blocks : RangeOutcome → Bool
blocks accepted = false
blocks rejected = true
blocks not_enforced = false
blocks evidence_unavailable = true

-- `reason or "EXECUTION_RULE_EVIDENCE_UNAVAILABLE"`
abbrev pub reason_or_unavailable : Option String → String
reason_or_unavailable none = "EXECUTION_RULE_EVIDENCE_UNAVAILABLE"
reason_or_unavailable (some r) = r

module _ (fl : FloatOps) (config : BrokerConfig fl.F) (market : Market fl.F) where
  open fl use {F, lt, le, plus, minus, times, over, absolute, negate, to_decimal}

  -- `_reject_quantity` at the stage FINAL
  unfoldable pub reject : Proposal F → String → F → Books F → Books F
  reject p reason notional b = record b {
    rejections =
        record {
          symbol = p.symbol;
          side = p.side;
          stage = "FINAL";
          reason = reason;
          notional = notional;
          requested_quantity = p.requested_quantity;
          target_weight = p.target_weight;
          idempotency_key = p.idempotency_key;
        }
        ∷ b.rejections;
  }

  unfoldable pub note_decision : Proposal F → Terms F → PriceRangeDecision → Books F → Books F
  note_decision p terms d b = record b {
    decisions =
        record {
          symbol = p.symbol;
          side = p.side;
          idempotency_key = p.idempotency_key;
          simulated_execution_price = to_decimal terms.execution_price;
          reference_price = usable_reference (market.rule_reference_prices p.symbol);
          lower_bound = d.lower_bound;
          upper_bound = d.upper_bound;
          outcome = d.outcome;
          reason = d.reason;
        }
        ∷ b.decisions;
  }

  -- `_record_price_range_decision`, and the rejection that follows a blocking outcome. The flag
  -- tells whether the proposal goes on.
  abbrev pub after_decision : Proposal F → Terms F → PriceRangeDecision → Books F → Bool × Books F
  after_decision p terms d b =
      if blocks d.outcome
      then (
        false,
        reject p (reason_or_unavailable d.reason) (times p.requested_quantity terms.execution_price)
            (note_decision p terms d b),
      )
      else (true, note_decision p terms d b)

  unfoldable pub range_decision : Proposal F → Terms F → Result PriceRangeDecision
  range_decision p terms =
      evaluate_price_range_rule (evidence_or_failure p.symbol (market.price_range_rules p.symbol))
        (market.rule_reference_prices p.symbol) (range_side p.side)
        (to_decimal terms.execution_price)

  -- `if self.config.require_execution_rule_evidence:`
  unfoldable pub range_check_if : Bool → Proposal F → Terms F → Books F → Result (Bool × Books F)
  range_check_if false p terms b = ok (true, b)
  range_check_if true p terms b = do
    decision ← range_decision p terms
    ok (after_decision p terms decision b)

  abbrev pub range_check : Proposal F → Terms F → Books F → Result (Bool × Books F)
  range_check = range_check_if config.require_execution_rule_evidence

  unfoldable pub final_quantity : String → F → Result (Normalized F)
  final_quantity symbol quantity =
      normalize_exchange_quantity fl config.require_exchange_rules config.quantity_tolerance
        (market.symbol_rules symbol) quantity
        (as_argument fl (market_rule_reference_price fl market symbol))

  abbrev pub terms_of : Proposal F → Terms F
  terms_of p = execution_terms fl config (market.quotes p.symbol) p.side

  -- `positions.get(symbol, {}).get("quantity", 0.0)`
  abbrev pub quantity_or_zero : Option (Position F) → F
  quantity_or_zero none = f_zero fl
  quantity_or_zero (some p) = p.quantity

  abbrev pub held : Proposal F → Books F → F
  held p b = quantity_or_zero (position_of p.symbol b.positions)
