-- ===== src/Backtest/Weights.antt =====
-- The target weights that `_extract_weights` of src/backtest.py accepts.
use hermes_crypto_lab.Base.{
  ◌≡◌, refl, sym, ap, String, Option, none, some, Bool, true, false, not, List, [], ◌∷◌, any_of,
  Exn, raise_if, ok, inl, inr, >>=-eq-ok, ok_eq, raise_if-passed, or-false, Bool-cases,
}
use mathlib.Core.Path.{subst}
use hermes_crypto_lab.Float.{FloatOps, Number, as_real, f_zero, f_one}
use hermes_crypto_lab.Backtest.{
  allowed, weight_of_number, convert_weights, risky_total, weight_of, one_and, check_cash,
  extract_weights,
}

module _ (fl : FloatOps) (assets : List String) (tolerance : fl.F) where
  open fl use {F, isfinite, lt, plus, minus, absolute}

  -- One weight and the number that it was read from.
  abbrev pub IsRead : String × Number F → String × F → Type 0
  IsRead raw w =
      (w.0 ≡ raw.0)
      × (as_real fl raw.1 ≡ some w.1)
      × (isfinite w.1 ≡ true)
      × (allowed fl assets w.0 ≡ true)
      × (lt w.1 (f_zero fl) ≡ false)

  abbrev pub AreRead : List (String × Number F) → List (String × F) → Type 0
  AreRead [] [] = Unit
  AreRead (r ∷ rs) (w ∷ ws) = IsRead r w × AreRead rs ws
  AreRead _ _ = ⊥

  -- An allocation without leverage; if it names the cash, that completes it.
  pub record IsAllocation (weights : List (String × F)) : Type 0 where
    pub unleveraged : lt (one_and fl tolerance) (risky_total fl weights (f_zero fl)) ≡ false
    pub completed :
        (cash : F)
        → weight_of fl "CASH" weights ≡ some cash
        → (lt (one_and fl tolerance) cash ≡ false)
          × (lt tolerance
                (absolute (minus (plus (risky_total fl weights (f_zero fl)) cash) (f_one fl)))
              ≡ false)

  weight_of_number-reads :
      (x : Option F) (w : F) → weight_of_number fl x ≡ ok w → (x ≡ some w) × (isfinite w ≡ true)
  weight_of_number-reads none w e = absurd (cc e)
  weight_of_number-reads (some x) w e = elim (Bool-cases (isfinite x)) [
    | inl good ↦
        let same = ok_eq _ _ (rw good at e) in
        (ap some same, subst (λ y. isfinite y ≡ true) same good)
    | inr bad ↦ absurd (cc (rw bad at e))
  ]

  convert_weights-AreRead :
      (raw : List (String × Number F)) (weights : List (String × F))
      → convert_weights fl assets raw ≡ ok weights
      → any_of (λ w. lt w.1 (f_zero fl)) weights ≡ false
      → AreRead raw weights
  unfolding convert_weights
  convert_weights-AreRead [] weights e nonneg = subst (AreRead []) (ok_eq _ _ e) tt
  convert_weights-AreRead ((asset, n) ∷ rest) weights e nonneg =
      let (known, e1) = raise_if-passed (not (allowed fl assets asset)) _ _ e in
      let (w, number, e2) = >>=-eq-ok (weight_of_number fl (as_real fl n)) _ e1 in
      let (others, converted, e3) = >>=-eq-ok (convert_weights fl assets rest) _ e2 in
      let (value, finite) = weight_of_number-reads (as_real fl n) w number in
      let same : (asset, w) ∷ others ≡ weights = ok_eq _ _ e3 in
      let (here, there) = or-false _ _ (
        subst (λ l. any_of (λ (x : String × F). lt x.1 (f_zero fl)) l ≡ false) (sym same) nonneg) in
      subst (AreRead ((asset, n) ∷ rest)) same (
        (refl, value, finite, not_false (allowed fl assets asset) known, here),
        convert_weights-AreRead rest others converted there,
      )
    where
      not_false : (b : Bool) → not b ≡ false → b ≡ true
      not_false true h = refl
      not_false false h = absurd (cc h)

  check_cash-completes :
      (risky : F) (cash : Option F)
      → check_cash fl tolerance risky cash ≡ ok tt
      → (c : F) → cash ≡ some c
      → (lt (one_and fl tolerance) c ≡ false)
        × (lt tolerance (absolute (minus (plus risky c) (f_one fl))) ≡ false)
  unfolding check_cash
  check_cash-completes risky none e c named = absurd (cc named)
  check_cash-completes risky (some x) e c named =
      let same : x ≡ c = cc named in
      let (small, e1) = raise_if-passed (lt (one_and fl tolerance) x) _ _ e in
      subst
        (λ y.
          (lt (one_and fl tolerance) y ≡ false)
          × (lt tolerance (absolute (minus (plus risky y) (f_one fl))) ≡ false))
        same (small, complete (lt tolerance (absolute (minus (plus risky x) (f_one fl)))) _ e1)
    where
      complete : (b : Bool) (e : Exn) → raise_if b e ≡ ok tt → b ≡ false
      complete true e h = absurd (cc h)
      complete false e h = refl

  -- The weights that `_extract_weights` accepts are those of the mapping, in its order: each is
  -- finite, not negative, and of an asset or the cash; without the cash they do not exceed one by
  -- more than the tolerance; and a weight of the cash completes them to one within the tolerance.
  pub extract_weights-IsAllocation :
      (raw : List (String × Number F)) (weights : List (String × F))
      → extract_weights fl assets tolerance (some raw) ≡ ok weights
      → AreRead raw weights × IsAllocation weights
  unfolding extract_weights
  extract_weights-IsAllocation raw weights e =
      let (result, converted, e1) = >>=-eq-ok (convert_weights fl assets raw) _ e in
      let (nonneg, e2) =
        raise_if-passed (any_of (λ (w : String × F). lt w.1 (f_zero fl)) result) _ _ e1 in
      let (low, e3) =
        raise_if-passed (lt (one_and fl tolerance) (risky_total fl result (f_zero fl))) _ _ e2 in
      let (_, cash, e4) =
        >>=-eq-ok
          (check_cash fl tolerance (risky_total fl result (f_zero fl)) (weight_of fl "CASH" result))
          _ e3 in
      subst (λ w. AreRead raw w × IsAllocation w) (ok_eq _ _ e4)
        (
          convert_weights-AreRead raw result converted nonneg,
          record {
            unleveraged = low;
            completed =
                check_cash-completes (risky_total fl result (f_zero fl))
                  (weight_of fl "CASH" result) cash;
          },
        )
