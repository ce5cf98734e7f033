-- ===== src/Broker.antt =====
-- The paper broker of src/paper_broker.py: quotes, execution terms and the books that one run
-- changes. The transaction itself is `Broker/Execute`.
pub mod Execute
pub mod Ready
pub mod Loops
pub mod Ledgers
pub mod Accounting
pub mod Proposals
use hermes_crypto_lab.Base.{
  ℕ, String, Option, none, some, Bool, true, false, not, if◌then◌else◌, List, [], ◌∷◌, ◌==◌, ltb,
  ◌||◌,
}
use hermes_crypto_lab.Base.Int.{pos, negsuc}
use hermes_crypto_lab.Decimal.{Decimal, finite}
use hermes_crypto_lab.Float.{FloatOps, f_zero, f_one, f_max, f_min}
use hermes_crypto_lab.PriceRange
use hermes_crypto_lab.PriceRange.{
  RuleReferencePrice, ReferenceSource, reference_price, other_source, PriceRangeRuleEvidence,
  RangeOutcome,
}
use hermes_crypto_lab.Quantity.{
  SymbolRules, requires_average, ReferenceArgument, decimal_price, no_price,
}

pub data OrderSide : Type 0 where
  buy sell : OrderSide

abbrev pub range_side : OrderSide → PriceRange.Side
range_side buy = PriceRange.buy
range_side sell = PriceRange.sell

pub record Quote (F : Type 0) : Type 0 where
  pub bid : F
  pub ask : F
  pub last : F

pub record BrokerConfig (F : Type 0) : Type 0 where
  pub fee_rate : F
  pub minimum_spread_rate : F
  pub slippage_rate : F
  pub quantity_tolerance : F
  pub require_exchange_rules : Bool
  pub require_execution_rule_evidence : Bool

-- The parts of a `MarketSnapshot` that an execution reads. It has been validated, so there is a
-- quote for every asset; the other dictionaries are read by `get`.
pub record Market (F : Type 0) : Type 0 where
  pub quotes : String → Quote F
  pub symbol_rules : String → Option (SymbolRules F)
  pub rule_reference_prices : String → Option RuleReferencePrice
  pub price_range_rules : String → Option PriceRangeRuleEvidence

pub record Proposal (F : Type 0) : Type 0 where
  pub idempotency_key : String
  pub symbol : String
  pub side : OrderSide
  pub requested_quantity : F
  pub target_weight : F

-- `_execution_terms`
pub record Terms (F : Type 0) : Type 0 where
  pub mid : F
  pub base_executable_price : F
  pub execution_price : F
  pub half_spread : F
  pub full_spread : F
  pub minimum_spread_applied : Bool

pub record Position (F : Type 0) : Type 0 where
  pub quantity : F
  pub average_cost : F

-- A row of `paper_orders`; `order_id` is a text made of the key.
pub record Order (F : Type 0) : Type 0 where
  pub idempotency_key : String
  pub symbol : String
  pub side : OrderSide
  pub requested_quantity : F
  pub target_weight : F

-- A row of `paper_fills`.
pub record Fill (F : Type 0) : Type 0 where
  pub idempotency_key : String
  pub symbol : String
  pub side : OrderSide
  pub quantity : F
  pub market_price : F
  pub execution_price : F
  pub spread_cost : F
  pub slippage_cost : F
  pub fee : F

-- Rows of `cash_ledger` and `position_ledger`: the change and the balance after it.
pub record CashEntry (F : Type 0) : Type 0 where
  pub delta : F
  pub balance : F

pub record PositionEntry (F : Type 0) : Type 0 where
  pub symbol : String
  pub delta : F
  pub balance : F

pub record Rejection (F : Type 0) : Type 0 where
  pub symbol : String
  pub side : OrderSide
  pub stage : String
  pub reason : String
  pub notional : F
  pub requested_quantity : F
  pub target_weight : F
  pub idempotency_key : String

pub record RangeRecord : Type 0 where
  pub symbol : String
  pub side : OrderSide
  pub idempotency_key : String
  pub simulated_execution_price : Decimal
  pub reference_price : Option Decimal
  pub lower_bound : Option Decimal
  pub upper_bound : Option Decimal
  pub outcome : RangeOutcome
  pub reason : Option String

-- The account and the tables, newest row first.
pub record Books (F : Type 0) : Type 0 where
  pub cash : F
  pub positions : List (String × Position F)
  pub orders : List (Order F)
  pub fills : List (Fill F)
  pub cash_ledger : List (CashEntry F)
  pub position_ledger : List (PositionEntry F)
  pub rejections : List (Rejection F)
  pub decisions : List RangeRecord

module _ (fl : FloatOps) where
  open fl use {F, lt, eq, plus, minus, times, over, to_decimal, of_decimal}

  -- `2.0`
  abbrev pub f_two : F
  f_two = of_decimal (finite false 2 (pos 0))

  abbrev pub mid : Quote F → F
  mid q = over (plus q.bid q.ask) f_two

  abbrev pub buy_terms : BrokerConfig F → Quote F → Terms F
  buy_terms c q =
      let m = mid q in
      let base = f_max fl q.ask (times m (plus (f_one fl) c.minimum_spread_rate)) in
      record {
        mid = m;
        base_executable_price = base;
        execution_price = times base (plus (f_one fl) c.slippage_rate);
        half_spread = f_max fl (over (minus q.ask q.bid) (times f_two m)) (f_zero fl);
        full_spread = minus q.ask q.bid;
        minimum_spread_applied = not (eq base q.ask);
      }

  abbrev pub sell_terms : BrokerConfig F → Quote F → Terms F
  sell_terms c q =
      let m = mid q in
      let base = f_min fl q.bid (times m (minus (f_one fl) c.minimum_spread_rate)) in
      record {
        mid = m;
        base_executable_price = base;
        execution_price = times base (minus (f_one fl) c.slippage_rate);
        half_spread = f_max fl (over (minus q.ask q.bid) (times f_two m)) (f_zero fl);
        full_spread = minus q.ask q.bid;
        minimum_spread_applied = not (eq base q.bid);
      }

  unfoldable pub execution_terms : BrokerConfig F → Quote F → OrderSide → Terms F
  execution_terms c q buy = buy_terms c q
  execution_terms c q sell = sell_terms c q

  abbrev pub last_fallback : Option (SymbolRules F) → F → Option Decimal
  last_fallback none last = some (to_decimal last)
  last_fallback (some r) last = if requires_average fl r then none else some (to_decimal last)

  abbrev pub referenced :
      ReferenceSource → Option Decimal → Option (SymbolRules F) → F → Option Decimal
  referenced reference_price price rules last = price
  referenced (other_source s) price rules last = last_fallback rules last

  -- `_market_rule_reference_price`
  unfoldable pub market_rule_reference_price : Market F → String → Option Decimal
  market_rule_reference_price market symbol = elim (market.rule_reference_prices symbol) [
    | none ↦ last_fallback (market.symbol_rules symbol) (market.quotes symbol).last
    | some r ↦ referenced r.source r.price (market.symbol_rules symbol) (market.quotes symbol).last
  ]

  abbrev pub as_argument : Option Decimal → ReferenceArgument F
  as_argument none = no_price
  as_argument (some d) = decimal_price d
