-- ===== src/Portfolio/Selection.antt =====
-- The assets and the cash of `build_target_weights`.
use hermes_crypto_lab.Base.{
  ℕ, zero, suc, ◌≡◌, ◌⊎◌, refl, sym, ap, ◌∙◌, String, false, List, [], ◌∷◌, ◌++◌, map, take,
  keep_if, ok, inl, inr, Bool-cases, raise_if-passed, ok_eq,
}
use mathlib.Core.Path.{subst}
use hermes_crypto_lab.Base.Int.{pos}
use hermes_crypto_lab.Float.{FloatOps, f_zero, f_one, f_max}
use hermes_crypto_lab.Portfolio.{
  Limits, usable, select, capped, inverse_total, scale_altcoins, limit_altcoins, invested, most,
  with_cash, weigh, build_target_weights, sum_if,
}

module _ (fl : FloatOps) (limits : Limits fl.F) where
  open fl use {F, lt, minus, over}

  abbrev symbols : List (String × F) → List String
  symbols = map (λ (w : String × F). w.0)

  -- Weights of some assets, and after them that of the cash: all of it, or what the assets leave.
  pub record IsPortfolio (assets : List String) (weights : List (String × F)) : Type 0 where
    pub risky : List (String × F)
    pub cash : F
    pub listed : weights ≡ risky ++ (("CASH", cash) ∷ [])
    pub held : map (λ (w : String × F). w.0) risky ≡ assets
    pub balanced :
        ((risky ≡ []) × (cash ≡ f_one fl))
        ⊎ ((lt (most fl limits) (invested fl limits risky) ≡ false)
            × (cash ≡ f_max fl (f_zero fl) (minus (f_one fl) (invested fl limits risky))))

  select-take :
      (n : ℕ) (ranked : List String)
      → select fl limits n ranked ≡ take n (keep_if (usable fl limits) ranked)
  unfolding select
  select-take zero ranked = refl
  select-take (suc n) [] = refl
  select-take (suc n) (asset ∷ ranked) = elim (Bool-cases (usable fl limits asset)) [
    | inl good ↦ rw (good, select-take n ranked) refl
    | inr bad ↦ rw (bad, select-take (suc n) ranked) refl
  ]

  symbols-capped :
      (total : F) (assets : List String) → symbols (capped fl limits total assets) ≡ assets
  unfolding capped
  symbols-capped total [] = refl
  symbols-capped total (asset ∷ rest) =
      ap (λ (l : List String). asset ∷ l) (symbols-capped total rest)

  symbols-scale_altcoins :
      (scale : F) (weights : List (String × F))
      → symbols (scale_altcoins fl limits scale weights) ≡ symbols weights
  unfolding scale_altcoins
  symbols-scale_altcoins scale [] = refl
  symbols-scale_altcoins scale ((asset, w) ∷ rest) =
      ap (λ (l : List String). asset ∷ l) (symbols-scale_altcoins scale rest)

  symbols-limit_altcoins :
      (weights : List (String × F)) → symbols (limit_altcoins fl limits weights) ≡ symbols weights
  unfolding limit_altcoins
  symbols-limit_altcoins weights =
      let alt_total = sum_if fl limits limits.altcoins weights (f_zero fl) in
      elim (Bool-cases (lt limits.max_altcoin_weight alt_total)) [
        | inl much ↦
            rw much (symbols-scale_altcoins (over limits.max_altcoin_weight alt_total) weights)
        | inr little ↦ rw little refl
      ]

  weigh-IsPortfolio :
      (assets : List String) (weights : List (String × F))
      → weigh fl limits assets ≡ ok weights
      → IsPortfolio assets weights
  unfolding weigh with_cash
  weigh-IsPortfolio [] weights e = record {
    risky = [];
    cash = f_one fl;
    listed = sym (ok_eq _ _ e);
    held = refl;
    balanced = inl (refl, refl);
  }
  weigh-IsPortfolio (asset ∷ rest) weights e =
      let total = inverse_total fl limits (asset ∷ rest) (f_zero fl) in
      let risky = limit_altcoins fl limits (capped fl limits total (asset ∷ rest)) in
      let (low, done) = raise_if-passed (lt (most fl limits) (invested fl limits risky)) _ _ e in
      record {
        risky = risky;
        cash = f_max fl (f_zero fl) (minus (f_one fl) (invested fl limits risky));
        listed = sym (ok_eq _ _ done);
        held =
            symbols-limit_altcoins (capped fl limits total (asset ∷ rest))
            ∙ symbols-capped total (asset ∷ rest);
        balanced = inr (low, refl);
      }

  -- The weights that `build_target_weights` returns are those of the best `n` ranked assets whose
  -- volatility is usable, in their order, and then that of the cash: either there is no such asset
  -- and it is one, or it is what the others leave of one, or zero, and they do not exceed one by
  -- more than 1e-12.
  pub build_target_weights-IsPortfolio :
      (ranked : List String) (n : ℕ) (weights : List (String × F))
      → build_target_weights fl limits ranked (pos n) ≡ ok weights
      → IsPortfolio (take n (keep_if (usable fl limits) ranked)) weights
  unfolding build_target_weights
  build_target_weights-IsPortfolio ranked n weights e =
      subst (λ assets. IsPortfolio assets weights) (select-take n ranked)
        (weigh-IsPortfolio (select fl limits n ranked) weights e)
