-- ===== src/Tests/Market.antt =====
-- Test data: a market with one asset, its rules and public evidence, and empty books.
use hermes_crypto_lab.Base.{none, some, true, false, List, [], ◌∷◌}
use hermes_crypto_lab.Base.Int.{ℤ, pos, negsuc}
use hermes_crypto_lab.Decimal.{finite}
use hermes_crypto_lab.Time.{aware}
use hermes_crypto_lab.PriceRange.{
  RuleReferencePrice, reference_price, PriceRangeRuleEvidence, range_present,
}
use hermes_crypto_lab.Quantity.{SymbolRules}
use hermes_crypto_lab.Broker.{buy, sell, BrokerConfig, Market, Proposal, Books}

-- 100 is 1_000_000, in units of a ten-thousandth.
abbrev pub btc_rules : SymbolRules ℤ
btc_rules = record {
  active = true;
  min_quantity = pos 100;
  max_quantity = some (pos 10_000_000);
  step_size = pos 100;
  min_notional = pos 50_000;
  market_order_allowed = true;
  market_min_quantity = none;
  market_max_quantity = none;
  market_step_size = none;
  min_notional_applies_to_market = true;
  min_notional_avg_price_mins = 0;
  notional_min = none;
  notional_max = none;
  notional_min_applies_to_market = false;
  notional_max_applies_to_market = false;
  notional_avg_price_mins = 0;
  raw_min_quantity = none;
  raw_max_quantity = none;
  raw_step_size = some (finite false 1 (negsuc 1));
  raw_market_min_quantity = none;
  raw_market_max_quantity = none;
  raw_market_step_size = none;
  raw_min_notional = none;
  raw_notional_min = none;
  raw_notional_max = none;
}

abbrev pub btc_reference : RuleReferencePrice
btc_reference = record {
  price = some (finite false 100 (pos 0));
  source = reference_price;
  timestamp = none;
  acquired_at = some (aware 1_000_000_000);
}

-- From 80 to 120 percent of the reference price, for buys and for sells.
abbrev pub btc_evidence : PriceRangeRuleEvidence
btc_evidence = record {
  symbol = "BTC";
  native_symbol = some "BTCUSDC";
  status = range_present;
  price_range_present = some true;
  bid_limit_mult_up = some (finite false 12 (negsuc 0));
  bid_limit_mult_down = some (finite false 8 (negsuc 0));
  ask_limit_mult_up = some (finite false 12 (negsuc 0));
  ask_limit_mult_down = some (finite false 8 (negsuc 0));
  source_timestamp = none;
  acquired_at = some (aware 1_000_000_000);
}

abbrev pub market : Market ℤ
market = record {
  quotes = λ s. record { bid = pos 1_000_000; ask = pos 1_010_000; last = pos 1_005_000 };
  symbol_rules = λ s. some btc_rules;
  rule_reference_prices = λ s. some btc_reference;
  price_range_rules = λ s. some btc_evidence;
}

abbrev pub config : BrokerConfig ℤ
config = record {
  fee_rate = pos 10;
  minimum_spread_rate = pos 5;
  slippage_rate = pos 5;
  quantity_tolerance = pos 1;
  require_exchange_rules = true;
  require_execution_rule_evidence = true;
}

-- A sale without a position, which is rejected, and a purchase.
abbrev pub proposals : List (Proposal ℤ)
proposals =
    record {
      idempotency_key = "k1";
      symbol = "BTC";
      side = sell;
      requested_quantity = pos 1_000;
      target_weight = pos 0;
    }
    ∷ record {
      idempotency_key = "k2";
      symbol = "BTC";
      side = buy;
      requested_quantity = pos 1_234;
      target_weight = pos 5_000;
    }
    ∷ []

-- An account with 1000 in cash.
abbrev pub books : Books ℤ
books = record {
  cash = pos 10_000_000;
  positions = [];
  orders = [];
  fills = [];
  cash_ledger = [];
  position_ledger = [];
  rejections = [];
  decisions = [];
}
