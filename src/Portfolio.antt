-- ===== src/Portfolio.antt =====
-- `build_target_weights` of src/portfolio.py: inverse-volatility weights of the best assets under
-- caps, with the rest in cash. An asset is ranked once; the mappings are functions to an optional
-- value.
pub mod Selection
use text.Mathlib.Text.{◌==◌ as str_eq}
use hermes_crypto_lab.Base.{
  ℕ, zero, suc, ◌≡◌, String, Option, none, some, Bool, true, false, ◌&&◌, List, [], ◌∷◌, ◌++◌, map,
  if◌then◌else◌, Result, ok, err, value_error, raise_if, ◌>>=◌, ◌>>◌,
}
use hermes_crypto_lab.Base.Int.{ℤ, pos, negsuc}
use hermes_crypto_lab.Decimal.{finite}
use hermes_crypto_lab.Float.{FloatOps, f_zero, f_one, f_min, f_max}

-- The keyword arguments.
pub record Limits (F : Type 0) : Type 0 where
  pub realized_volatility : String → Option F
  pub asset_caps : String → Option F
  pub altcoins : String → Bool
  pub max_altcoin_weight : F

module _ (fl : FloatOps) (limits : Limits fl.F) where
  open fl use {F, isfinite, lt, plus, minus, times, over, of_decimal}

  -- `math.isfinite(volatility) and volatility > 0`, where a missing volatility is NaN
  abbrev pub usable : String → Bool
  usable asset = elim (limits.realized_volatility asset) [
    | none ↦ false
    | some v ↦ isfinite v && lt (f_zero fl) v
  ]

  -- The loop that fills `selected` and breaks when there are enough.
  unfoldable pub select : ℕ → List String → List String
  select zero ranked = []
  select (suc n) [] = []
  select (suc n) (asset ∷ ranked) =
      let rest = select (if usable asset then n else suc n) ranked in
      if usable asset then asset ∷ rest else rest

  abbrev pub inverse_of : Option F → F
  inverse_of none = f_zero fl
  inverse_of (some v) = over (f_one fl) v

  abbrev pub inverse : String → F
  inverse asset = inverse_of (limits.realized_volatility asset)

  unfoldable pub inverse_total : List String → F → F
  inverse_total [] total = total
  inverse_total (asset ∷ rest) total = inverse_total rest (plus total (inverse asset))

  abbrev pub cap_of : Option F → F
  cap_of none = f_one fl
  cap_of (some c) = c

  unfoldable pub capped : F → List String → List (String × F)
  capped total [] = []
  capped total (asset ∷ rest) =
      (asset, f_min fl (over (inverse asset) total) (cap_of (limits.asset_caps asset)))
      ∷ capped total rest

  -- A sum of the weights that a test lets in.
  unfoldable pub sum_if : (String → Bool) → List (String × F) → F → F
  sum_if p [] total = total
  sum_if p ((asset, w) ∷ rest) total = sum_if p rest (if p asset then plus total w else total)

  unfoldable pub scale_altcoins : F → List (String × F) → List (String × F)
  scale_altcoins scale [] = []
  scale_altcoins scale ((asset, w) ∷ rest) =
      (asset, if limits.altcoins asset then times w scale else w) ∷ scale_altcoins scale rest

  -- `if alt_total > max_altcoin_weight:`
  unfoldable pub limit_altcoins : List (String × F) → List (String × F)
  limit_altcoins weights =
      let alt_total = sum_if limits.altcoins weights (f_zero fl) in
      if lt limits.max_altcoin_weight alt_total
      then scale_altcoins (over limits.max_altcoin_weight alt_total) weights
      else weights

  abbrev pub invested : List (String × F) → F
  invested weights = sum_if (λ a. true) weights (f_zero fl)

  -- `1.0 + 1e-12`
  abbrev pub most : F
  most = plus (f_one fl) (of_decimal (finite false 1 (negsuc 11)))

  unfoldable pub with_cash : List (String × F) → Result (List (String × F))
  with_cash weights = do
    raise_if (lt most (invested weights)) (value_error "Portfolio constraints produced leverage")
    ok (weights ++ (("CASH", f_max fl (f_zero fl) (minus (f_one fl) (invested weights))) ∷ []))

  abbrev pub all_cash : List (String × F)
  all_cash = ("CASH", f_one fl) ∷ []

  unfoldable pub weigh : List String → Result (List (String × F))
  weigh [] = ok all_cash
  weigh (asset ∷ rest) =
      with_cash (limit_altcoins (capped (inverse_total (asset ∷ rest) (f_zero fl)) (asset ∷ rest)))

  -- `build_target_weights`
  unfoldable pub build_target_weights : List String → ℤ → Result (List (String × F))
  build_target_weights ranked (negsuc n) = err (value_error "max_assets must be non-negative")
  build_target_weights ranked (pos n) = weigh (select n ranked)
