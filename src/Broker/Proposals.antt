-- ===== src/Broker/Proposals.antt =====
-- `_proposals` of src/paper_broker.py: from target weights to order proposals, one asset after
-- the other. The signal's target weights and the SHA-256 key of an asset are parameters.
pub mod Tables
pub mod Targets
pub mod Gaps
use hermes_crypto_lab.Base.{
  String, Option, none, some, if◌then◌else◌, List, [], ◌∷◌, ◌++◌, Result, ok, ◌>>=◌,
}
use hermes_crypto_lab.Float.{FloatOps, f_zero}
use hermes_crypto_lab.Quantity.{Normalized, executable, refused}
use hermes_crypto_lab.Broker.{OrderSide, buy, sell, BrokerConfig, Market, Proposal, Books, mid}
use hermes_crypto_lab.Broker.Execute.{position_of, final_quantity, quantity_or_zero}

module _ (fl : FloatOps) (config : BrokerConfig fl.F) (market : Market fl.F)
    (target_weights : String → Option fl.F) (idempotency_key : String → String) where
  open fl use {F, lt, le, plus, minus, times, over, absolute}

  -- `signal.target_weights.get(asset, 0.0)` and the asset's quantity
  abbrev pub target_weight : String → F
  target_weight asset = elim (target_weights asset) [ none ↦ f_zero fl | some w ↦ w ]

  abbrev pub current : Books F → String → F
  current b asset = quantity_or_zero fl config market (position_of asset b.positions)

  -- The sum over the assets, which starts at zero, is added to the cash.
  unfoldable pub value_of : Books F → List String → F → F
  value_of b [] total = total
  value_of b (asset ∷ assets) total =
      value_of b assets (plus total (times (current b asset) (mid fl (market.quotes asset))))

  abbrev pub equity : List String → Books F → F
  equity assets b = plus b.cash (value_of b assets (f_zero fl))

  -- `desired - current`
  unfoldable pub delta : F → Books F → String → F
  delta total b asset =
      minus (over (times total (target_weight asset)) (mid fl (market.quotes asset)))
        (current b asset)

  abbrev pub side_of : F → OrderSide
  side_of d = if lt (f_zero fl) d then buy else sell

  abbrev pub proposal : String → F → F → Proposal F
  proposal asset d quantity = record {
    idempotency_key = idempotency_key asset;
    symbol = asset;
    side = side_of d;
    requested_quantity = quantity;
    target_weight = target_weight asset;
  }

  -- `_reject_quantity` at the stage PROPOSAL
  abbrev pub reject_proposal : String → F → String → Books F → Books F
  reject_proposal asset d reason b = record b {
    rejections =
        record {
          symbol = asset;
          side = side_of d;
          stage = "PROPOSAL";
          reason = reason;
          notional = times (absolute d) (mid fl (market.quotes asset));
          requested_quantity = absolute d;
          target_weight = target_weight asset;
          idempotency_key = idempotency_key asset;
        }
        ∷ b.rejections;
  }

  abbrev pub proposed : String → F → Normalized F → Books F → List (Proposal F) × Books F
  proposed asset d (executable quantity) b = (proposal asset d quantity ∷ [], b)
  proposed asset d (refused reason) b = ([], reject_proposal asset d reason b)

  -- One round of the loop.
  unfoldable pub propose : F → String → Books F → Result (List (Proposal F) × Books F)
  propose total asset b =
      let d = delta total b asset in
      if le (absolute d) config.quantity_tolerance then ok ([], b) else do
        normalized ← final_quantity fl config market asset (absolute d)
        ok (proposed asset d normalized b)

  unfoldable pub propose_each : F → List String → Books F → Result (List (Proposal F) × Books F)
  propose_each total [] b = ok ([], b)
  propose_each total (asset ∷ assets) b = do
    (first, b') ← propose total asset b
    (rest, b'') ← propose_each total assets b'
    ok (first ++ rest, b'')

  -- `_proposals`, with `config.assets`
  unfoldable pub make_proposals : List String → Books F → Result (List (Proposal F) × Books F)
  make_proposals assets b = propose_each (equity assets b) assets (record b { rejections = [] })
