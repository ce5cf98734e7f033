-- ===== src/Costs.antt =====
-- `ExecutionCostModel` of src/costs.py: the checks of its rates, the price after slippage and the
-- fee. An argument stands for any value, as `Number` has it; `str.upper` is the interpreter's and
-- a parameter. A message that names a value is written without it.
use text.Mathlib.Text.{◌==◌ as str_eq}
use hermes_crypto_lab.Base.{
  String, Option, none, some, Bool, true, not, ◌||◌, ◌&&◌, if◌then◌else◌, Result, ok, err,
  value_error, ◌>>=◌,
}
use hermes_crypto_lab.Float.{FloatOps, Number, as_real, f_zero, f_one}

pub record ExecutionCostModel (F : Type 0) : Type 0 where
  pub fee_rate : F
  pub slippage_rate : F

module _ (fl : FloatOps) where
  open fl use {F, isfinite, lt, le, plus, minus, times, absolute}

  -- The float of an argument that passes the source's test, or the error.
  abbrev pub checked : (F → Bool) → String → Option F → Result F
  checked good message none = err (value_error message)
  checked good message (some x) =
      if not (isfinite x) || not (good x) then err (value_error message) else ok x

  abbrev pub in_unit : F → Bool
  in_unit x = le (f_zero fl) x && lt x (f_one fl)

  -- `ExecutionCostModel(fee_rate, slippage_rate)`
  unfoldable pub make_costs : Number F → Number F → Result (ExecutionCostModel F)
  make_costs fee_rate slippage_rate = do
    fee ← checked in_unit "fee_rate must be a finite numeric value in [0, 1)" (as_real fl fee_rate)
    slippage ←
        checked in_unit "slippage_rate must be a finite numeric value in [0, 1)"
          (as_real fl slippage_rate)
    ok (record { fee_rate = fee; slippage_rate = slippage })

  abbrev pub sided_price : ExecutionCostModel F → F → String → Result F
  sided_price m price side =
      if str_eq side "BUY"
      then ok (times price (plus (f_one fl) m.slippage_rate))
      else if str_eq side "SELL"
      then ok (times price (minus (f_one fl) m.slippage_rate))
      else err (value_error "Unsupported side")

  abbrev pub is_positive : F → Bool
  is_positive x = not (le x (f_zero fl))

  -- `execution_price`; a side that is no text is `none`.
  unfoldable pub execution_price :
      (String → String) → ExecutionCostModel F → Number F → Option String → Result F
  execution_price upper m market_price none = do
    price ←
        checked is_positive "market_price must be a positive finite number"
          (as_real fl market_price)
    err (value_error "side must be BUY or SELL")
  execution_price upper m market_price (some side) = do
    price ←
        checked is_positive "market_price must be a positive finite number"
          (as_real fl market_price)
    sided_price m price (upper side)

  -- `fee`
  unfoldable pub fee : ExecutionCostModel F → Number F → Number F → Result F
  fee m quantity execution_price = do
    q ← checked (λ x. true) "quantity must be a finite number" (as_real fl quantity)
    p ←
        checked is_positive "execution_price must be a positive finite number"
          (as_real fl execution_price)
    ok (times (absolute (times q p)) m.fee_rate)
