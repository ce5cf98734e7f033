-- ===== src/Strategy.antt =====
-- `StrategyConfig` of src/strategy.py: the tests of `__post_init__` and `required_observations`.
-- A field stands for any value, as `Number` has it; `str.strip` is the interpreter's and a
-- parameter.
pub mod Windows
use text.Mathlib.Text.{◌==◌ as str_eq}
use hermes_crypto_lab.Base.{
  ℕ, ◌+◌, ◌-◌, String, Option, none, some, Bool, true, false, not, ◌||◌, ◌&&◌, List, [], ◌∷◌,
  any_of, Result, ok, value_error, raise_if, ◌>>◌, if◌then◌else◌, ltb,
}
use hermes_crypto_lab.Base.Int.{ℤ, pos, leb_ℤ, ltb_ℤ, pos_part}
use hermes_crypto_lab.Float.{
  FloatOps, Number, boolean, integer, floating, not_real, as_real, f_zero, f_one,
}

pub record StrategyConfig (F : Type 0) : Type 0 where
  pub momentum_short_days : Number F
  pub momentum_long_days : Number F
  pub momentum_skip_days : Number F
  pub btc_moving_average_days : Number F
  pub volatility_days : Number F
  pub annualization_days : Number F
  pub max_assets : Number F
  -- `none` where the field is no dictionary or no set, or a key is no text
  pub asset_caps : Option (List (Option String × Number F))
  pub altcoins : Option (List (Option String))
  pub max_altcoin_weight : Number F

module _ {F : Type 0} where
  -- `isinstance(value, bool) or not isinstance(value, int) or value <= 0`
  unfoldable pub not_positive_integer : Number F → Bool
  not_positive_integer (integer n) = leb_ℤ n (pos 0)
  not_positive_integer _ = true

  -- `isinstance(value, bool) or not isinstance(value, int) or value < 0`
  unfoldable pub not_natural : Number F → Bool
  not_natural (integer n) = ltb_ℤ n (pos 0)
  not_natural _ = true

  -- An integer field as a natural number.
  abbrev pub count_of : Number F → ℕ
  count_of (integer n) = pos_part n
  count_of _ = 0

-- `max(a, b)` of two counts
abbrev pub larger : ℕ → ℕ → ℕ
larger a b = if ltb a b then b else a

module _ (fl : FloatOps) (strip : String → String) where
  open fl use {F, isfinite, lt, le}

  -- `not isinstance(symbol, str) or not symbol.strip()`
  abbrev pub blank : Option String → Bool
  blank none = true
  blank (some s) = str_eq (strip s) ""

  -- `isinstance(value, bool) or not isinstance(value, Real) or not math.isfinite(float(value))`,
  -- or outside of what the test allows
  abbrev pub not_real_with : (F → Bool) → Option F → Bool
  not_real_with good none = true
  not_real_with good (some x) = not (isfinite x) || not (good x)

  unfoldable pub not_positive_real : Number F → Bool
  not_positive_real n = not_real_with (λ x. not (le x (f_zero fl))) (as_real fl n)

  unfoldable pub not_share : Number F → Bool
  not_share n = not_real_with (λ x. le (f_zero fl) x && le x (f_one fl)) (as_real fl n)

  unfoldable pub check_caps : List (Option String × Number F) → Result (Unit {0})
  check_caps [] = ok tt
  check_caps ((symbol, cap) ∷ rest) = do
    raise_if (blank symbol) (value_error "asset_caps must contain nonempty symbol strings")
    raise_if (not_share cap) (value_error "asset_caps values must be finite values within [0, 1]")
    check_caps rest

  abbrev pub check_asset_caps : Option (List (Option String × Number F)) → Result (Unit {0})
  check_asset_caps none = raise_if true (value_error "asset_caps must be a dictionary")
  check_asset_caps (some caps) = check_caps caps

  abbrev pub check_altcoins : Option (List (Option String)) → Result (Unit {0})
  check_altcoins none = raise_if true (value_error "altcoins must be a set")
  check_altcoins (some symbols) =
      raise_if (any_of blank symbols) (value_error "altcoins must contain nonempty symbol strings")

  -- `StrategyConfig.__post_init__`
  unfoldable pub check_strategy : StrategyConfig F → Result (Unit {0})
  check_strategy c = do
    raise_if (not_positive_integer c.momentum_short_days)
        (value_error "momentum_short_days must be a positive integer")
    raise_if (not_positive_integer c.momentum_long_days)
        (value_error "momentum_long_days must be a positive integer")
    raise_if (not_positive_integer c.btc_moving_average_days)
        (value_error "btc_moving_average_days must be a positive integer")
    raise_if (not_positive_integer c.volatility_days)
        (value_error "volatility_days must be a positive integer")
    raise_if (not_positive_integer c.max_assets)
        (value_error "max_assets must be a positive integer")
    raise_if (ltb (count_of c.volatility_days) 2)
        (value_error "volatility_days must be at least 2 for ddof=1")
    raise_if (not_natural c.momentum_skip_days)
        (value_error "momentum_skip_days must be a nonnegative integer")
    raise_if (not (ltb (count_of c.momentum_skip_days) (count_of c.momentum_long_days)))
        (value_error "momentum_skip_days must be less than momentum_long_days")
    raise_if (not_positive_real c.annualization_days)
        (value_error "annualization_days must be a positive finite number")
    check_asset_caps c.asset_caps
    check_altcoins c.altcoins
    raise_if (not_share c.max_altcoin_weight)
        (value_error "max_altcoin_weight must be a finite value within [0, 1]")

-- `required_observations`
unfoldable pub required_observations : {F : Type 0} → StrategyConfig F → ℕ
required_observations c =
    larger
      (larger
        (larger (larger (count_of c.momentum_short_days) (count_of c.momentum_long_days))
          (count_of c.momentum_skip_days))
        (count_of c.btc_moving_average_days - 1))
      (count_of c.volatility_days)
    + 1
