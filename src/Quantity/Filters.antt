-- ===== src/Quantity/Filters.antt =====
-- Every quantity that `_normalize_exchange_quantity` lets through under a symbol's rules lies on
-- both grids, inside every limit that is set, and meets the notional filters that apply.
use native.Mathlib.Nat.{div-add-mod'}
use hermes_crypto_lab.Base.{
  ℕ, ◌+◌, ◌*◌, ◌/◌, ◌%◌, ◌≡◌, ◌==◌, ==_iff, refl, Option, none, some, Bool, true, false, ◌&&◌,
  arith, Result, ok, err, value_error, any_of, String, >>=-eq-ok,
}
use hermes_crypto_lab.Base.Int.{ℤ, pos_part, neg_part}
use hermes_crypto_lab.Decimal.{
  Decimal, finite, special, scaled, is_finite, dec_ltb, dec_leb, dec_zero,
}
use hermes_crypto_lab.Decimal.Context.{context_mul, digit_count, fix}
use hermes_crypto_lab.Decimal.Order.{◌≤ᴰ◌, not-dec_ltb_iff}
use hermes_crypto_lab.Float.{FloatOps}
use hermes_crypto_lab.Quantity.{
  SymbolRules, Normalized, executable, Limits, is_set, malformed, under, over, all_limits,
  limits_of, refuse_if, except_refuse, misaligned, under_or_missing, over_or_missing,
  notional_filters, final_filters,
}
use hermes_crypto_lab.Quantity.Steps.{floor_step, step_aligned}

-- `x` is a whole number of steps, over a common power of ten.
abbrev pub IsMultiple : Decimal → Decimal → Type 0
IsMultiple (finite s c e) (finite t d f) =
    (k : ℕ) × (pos_part (scaled s c e f) + neg_part (scaled s c e f)
      ≡ k * pos_part (scaled t d f e))
IsMultiple _ _ = ⊥

-- A limit binds if it is there and above zero.
abbrev pub AtLeast : Option Decimal → Decimal → Type 0
AtLeast limit x = (m : Decimal) → limit ≡ some m → dec_ltb dec_zero m ≡ true → m ≤ᴰ x

abbrev pub AtMost : Option Decimal → Decimal → Type 0
AtMost limit x = (m : Decimal) → limit ≡ some m → dec_ltb dec_zero m ≡ true → x ≤ᴰ m

abbrev pub OnGrid : Option Decimal → Decimal → Type 0
OnGrid step x = (m : Decimal) → step ≡ some m → dec_ltb dec_zero m ≡ true → IsMultiple x m

pub step_aligned-IsMultiple : (x m : Decimal) → step_aligned x m ≡ true → IsMultiple x m
unfolding step_aligned
step_aligned-IsMultiple (finite s c e) (finite t d f) h =
    let n = pos_part (scaled s c e f) + neg_part (scaled s c e f) in
    let m = pos_part (scaled t d f e) in (n / m, whole n m h)
  where
    whole : (n m : ℕ) → (n % m == 0) ≡ true → n ≡ n / m * m
    whole n m h = omega (arith, div-add-mod' n m, (==_iff (n % m) 0).0 h)
step_aligned-IsMultiple (finite s c e) special h = absurd (cc h)
step_aligned-IsMultiple special m h = absurd (cc h)

-- A product in a context, and a floor, are finite.
is_finite-fix :
    (prec : ℕ) (s : Bool) (c : ℕ) (e : ℤ) (d : Decimal) → fix prec s c e ≡ ok d → is_finite d ≡ true
unfolding fix is_finite
is_finite-fix prec s c e (finite t a f) h = refl
is_finite-fix prec s c e special h = absurd (ground arith)

pub is_finite-floor_step : (x m d : Decimal) → floor_step x m ≡ ok d → is_finite d ≡ true
unfolding floor_step
is_finite-floor_step (finite s c e) (finite t a f) d h = is_finite-fix _ _ _ _ d h
is_finite-floor_step (finite s c e) special d h = absurd (cc h)
is_finite-floor_step special m d h = absurd (cc h)

dec_ltb_finite : (x y : Decimal) → dec_ltb x y ≡ true → (is_finite x ≡ true) × (is_finite y ≡ true)
unfolding dec_ltb is_finite
dec_ltb_finite (finite s c e) (finite t d f) h = (refl, refl)
dec_ltb_finite (finite s c e) special h = absurd (cc h)
dec_ltb_finite special y h = absurd (cc h)

-- A limit that passed the first test is finite.
limit_finite :
    (o : Option Decimal) (m : Decimal) → malformed o ≡ false → o ≡ some m → is_finite m ≡ true
limit_finite o m h e = ground arith

AtLeast-of_test :
    (limit : Option Decimal) (x : Decimal)
    → malformed limit ≡ false
    → is_finite x ≡ true
    → (is_set limit && under x limit) ≡ false
    → AtLeast limit x
AtLeast-of_test limit x ok_limit fin h m e positive =
    (not-dec_ltb_iff x m fin (limit_finite limit m ok_limit e)).0 (ground arith)

AtMost-of_test :
    (limit : Option Decimal) (x : Decimal)
    → malformed limit ≡ false
    → is_finite x ≡ true
    → (is_set limit && over x limit) ≡ false
    → AtMost limit x
AtMost-of_test limit x ok_limit fin h m e positive =
    (not-dec_ltb_iff m x (limit_finite limit m ok_limit e) fin).0 (ground arith)

module _ (fl : FloatOps) where
  open fl use {F, isfinite, le, to_decimal, of_decimal}

  pub refuse_if-accepted :
      (condition : Bool) (reason : String) (rest : Result (Normalized F)) (x : F)
      → refuse_if fl condition reason rest ≡ ok (executable x)
      → (condition ≡ false) × (rest ≡ ok (executable x))
  unfolding refuse_if
  refuse_if-accepted true reason rest x h = absurd (cc h)
  refuse_if-accepted false reason rest x h = (refl, h)

  pub except_refuse-accepted :
      (m : Result Decimal) (reason : String) (rest : Decimal → Result (Normalized F)) (x : F)
      → except_refuse fl m reason rest ≡ ok (executable x)
      → (d : Decimal) × (m ≡ ok d) × (rest d ≡ ok (executable x))
  unfolding except_refuse
  except_refuse-accepted (ok d) reason rest x h = (d, refl, h)
  except_refuse-accepted (err (value_error m)) reason rest x h = absurd (cc h)
  except_refuse-accepted (err _) reason rest x h = absurd (cc h)

  OnGrid-of_test :
      (step : Option Decimal) (x : Decimal) → misaligned fl x step ≡ false → OnGrid step x
  OnGrid-of_test step x h m e positive = step_aligned-IsMultiple x m (ground arith)

  -- The notional filters that apply to a market order.
  pub record MeetsNotional (r : SymbolRules F) (l : Limits) (notional : Decimal) : Type 0 where
    pub min_met :
        r.min_notional_applies_to_market ≡ true
        → (m : Decimal) × (l.min_notional ≡ some m) × (m ≤ᴰ notional)
    pub notional_min_met :
        r.notional_min_applies_to_market ≡ true
        → (m : Decimal) × (l.notional_min ≡ some m) × (m ≤ᴰ notional)
    pub notional_max_met : r.notional_max_applies_to_market ≡ true → AtMost l.notional_max notional

  floor_applies :
      (applies : Bool) (limit : Option Decimal) (n : Decimal)
      → malformed limit ≡ false
      → is_finite n ≡ true
      → (applies && under_or_missing fl n limit) ≡ false
      → applies ≡ true
      → (m : Decimal) × (limit ≡ some m) × (m ≤ᴰ n)
  floor_applies true none n ok_limit fin h a = absurd (cc h)
  floor_applies true (some m) n ok_limit fin h a =
      (m, refl, (not-dec_ltb_iff n m fin (limit_finite (some m) m ok_limit refl)).0 h)
  floor_applies false limit n ok_limit fin h a = absurd (cc a)

  ceiling_applies :
      (applies : Bool) (limit : Option Decimal) (n : Decimal)
      → malformed limit ≡ false
      → is_finite n ≡ true
      → (applies && over_or_missing fl n limit) ≡ false
      → applies ≡ true
      → AtMost limit n
  ceiling_applies applies limit n ok_limit fin h a m e positive =
      (not-dec_ltb_iff m n (limit_finite limit m ok_limit e) fin).0 (ground arith)

  -- The notional of the final quantity: the product that the source computes.
  abbrev pub NotionalOf : Decimal → Decimal → Decimal → Type 0
  NotionalOf quantity reference n =
      context_mul (digit_count quantity + digit_count reference) quantity reference ≡ ok n

  is_finite-context_mul :
      (prec : ℕ) (a b n : Decimal)
      → is_finite a ≡ true
      → is_finite b ≡ true
      → context_mul prec a b ≡ ok n
      → is_finite n ≡ true
  unfolding context_mul
  is_finite-context_mul prec (finite s c e) (finite t d f) n p q h = is_finite-fix _ _ _ _ n h
  is_finite-context_mul prec (finite s c e) special n p q h = absurd (unfold is_finite in cc q)
  is_finite-context_mul prec special b n p q h = absurd (unfold is_finite in cc p)

  notional_accepted :
      (r : SymbolRules F) (l : Limits) (d reference : Decimal) (x : F)
      → any_of malformed (all_limits l) ≡ false
      → is_finite d ≡ true
      → is_finite reference ≡ true
      → notional_filters fl r l d reference ≡ ok (executable x)
      → (x ≡ of_decimal d) × ((n : Decimal) × NotionalOf d reference n × MeetsNotional r l n)
  unfolding notional_filters
  notional_accepted r l d reference x ok_limits fin ref_fin h =
      let (n, product, h0) = >>=-eq-ok _ _ h in
      let (p, h1) = refuse_if-accepted _ _ _ x h0 in
      let (q, h2) = refuse_if-accepted _ _ _ x h1 in
      let (u, h3) = refuse_if-accepted _ _ _ x h2 in
      let n_fin = is_finite-context_mul _ d reference n fin ref_fin product in
      (
        cc,
        (
          n,
          product,
          record {
            min_met = floor_applies _ l.min_notional n (ground arith) n_fin p;
            notional_min_met = floor_applies _ l.notional_min n (ground arith) n_fin q;
            notional_max_met = ceiling_applies _ l.notional_max n (ground arith) n_fin u;
          },
        ),
      )

  -- What a final quantity `d` satisfies under the rules `r`.
  pub record MeetsFilters (tolerance : F) (r : SymbolRules F) (reference d : Decimal) : Type 0 where
    pub quantity_finite : is_finite d ≡ true
    pub more_than_tolerance : dec_leb d (to_decimal tolerance) ≡ false
    pub lot_min : AtLeast (limits_of fl r).min_quantity d
    pub lot_max : AtMost (limits_of fl r).max_quantity d
    pub lot_step : OnGrid (limits_of fl r).step_size d
    pub market_min : AtLeast (limits_of fl r).market_min d
    pub market_max : AtMost (limits_of fl r).market_max d
    pub market_step : OnGrid (limits_of fl r).market_step d
    pub notional : (n : Decimal) × NotionalOf d reference n × MeetsNotional r (limits_of fl r) n

  pub final_accepted :
      (tolerance : F) (r : SymbolRules F) (reference d : Decimal) (x : F)
      → any_of malformed (all_limits (limits_of fl r)) ≡ false
      → is_finite d ≡ true
      → is_finite reference ≡ true
      → final_filters fl tolerance r (limits_of fl r) reference d ≡ ok (executable x)
      → (x ≡ of_decimal d) × MeetsFilters tolerance r reference d
  unfolding final_filters
  final_accepted tolerance r reference d x ok_limits fin ref_fin h =
      let l = limits_of fl r in
      let (a, h1) = refuse_if-accepted _ _ _ x h in
      let (b, h2) = refuse_if-accepted _ _ _ x h1 in
      let (c, h3) = refuse_if-accepted _ _ _ x h2 in
      let (t, h4) = refuse_if-accepted _ _ _ x h3 in
      let (e, h5) = refuse_if-accepted _ _ _ x h4 in
      let (f, h6) = refuse_if-accepted _ _ _ x h5 in
      let (g, h7) = refuse_if-accepted _ _ _ x h6 in
      let (same, met) = notional_accepted r l d reference x ok_limits fin ref_fin h7 in
      (
        same,
        record {
          quantity_finite = fin;
          more_than_tolerance = t;
          lot_min = AtLeast-of_test l.min_quantity d (ground arith) fin e;
          lot_max = AtMost-of_test l.max_quantity d (ground arith) fin f;
          lot_step = OnGrid-of_test l.step_size d g;
          market_min = AtLeast-of_test l.market_min d (ground arith) fin a;
          market_max = AtMost-of_test l.market_max d (ground arith) fin b;
          market_step = OnGrid-of_test l.market_step d c;
          notional = met;
        },
      )
