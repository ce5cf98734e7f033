-- ===== src/Store/Tolerance/Reading.antt =====
-- What the lookups of `resolve_persisted_quantity_tolerance` say when they succeed.
use text.Mathlib.Text.{◌==◌ as str_eq}
use text.Mathlib.TextEquality.{eq_iff}
use mathlib.Core.Path.{subst}
use hermes_crypto_lab.Base.{
  ◌≡◌, ◌⊎◌, inl, inr, refl, sym, ap, String, Option, none, some, Bool, true, false, not, List, [],
  ◌∷◌, any_of, and-true, is_some, Bool-cases,
}
use hermes_crypto_lab.Store.Tolerance.{Json, Entries, present, as_object, is_text, within}

pub not-false : (b : Bool) → not b ≡ false → b ≡ true
not-false true h = refl
not-false false h = absurd (cc h)

abbrev pub IsAmong : String → List String → Type 0
IsAmong k [] = ⊥
IsAmong k (y ∷ ys) = (k ≡ y) ⊎ IsAmong k ys

any_of-IsAmong : (k : String) (ys : List String) → any_of (λ y. str_eq y k) ys ≡ true → IsAmong k ys
any_of-IsAmong k [] h = absurd (cc h)
any_of-IsAmong k (y ∷ ys) h = elim (Bool-cases (str_eq y k)) [
  | inl same ↦ inl (sym ((eq_iff y k).0 same))
  | inr other ↦ inr (any_of-IsAmong k ys (rw other at h))
]

pub within-IsAmong :
    (k : String) (xs ys : List String) → within xs ys ≡ true → IsAmong k xs → IsAmong k ys
within-IsAmong k [] ys h m = absurd m
within-IsAmong k (x ∷ xs) ys h (inl same) =
    subst (λ z. IsAmong z ys) (sym same)
      (any_of-IsAmong x ys (and-true (any_of (λ y. str_eq y x) ys) (within xs ys) h).0)
within-IsAmong k (x ∷ xs) ys h (inr m) =
    within-IsAmong k xs ys (and-true (any_of (λ y. str_eq y x) ys) (within xs ys) h).1 m

module _ {F : Type 0} where
  pub is_text-string :
      (s : String) (o : Option (Json F)) → is_text s o ≡ true → o ≡ some (Json.string s)
  is_text-string s (some (Json.string t)) h = ap (λ u. some (Json.string u)) ((eq_iff t s).0 h)
  is_text-string s (some Json.null) h = absurd (cc h)
  is_text-string s (some Json.array) h = absurd (cc h)
  is_text-string s (some (Json.boolean b)) h = absurd (cc h)
  is_text-string s (some (Json.number n)) h = absurd (cc h)
  is_text-string s (some (Json.object o)) h = absurd (cc h)
  is_text-string s none h = absurd (cc h)

  pub as_object-object :
      (o : Option (Json F)) (held : Entries F)
      → as_object o ≡ some held
      → o ≡ some (Json.object held)
  as_object-object (some (Json.object o)) held h = ap (λ x. some (Json.object x)) (cc h)
  as_object-object (some (Json.string t)) held h = absurd (cc h)
  as_object-object (some Json.null) held h = absurd (cc h)
  as_object-object (some Json.array) held h = absurd (cc h)
  as_object-object (some (Json.boolean b)) held h = absurd (cc h)
  as_object-object (some (Json.number n)) held h = absurd (cc h)
  as_object-object none held h = absurd (cc h)

  -- A value that is not None is the one that is there.
  pub present-some : (o : Option (Json F)) (x : Json F) → present o ≡ some x → o ≡ some x
  present-some (some Json.null) x h = absurd (cc h)
  present-some (some Json.array) x h = h
  present-some (some (Json.boolean b)) x h = h
  present-some (some (Json.number n)) x h = h
  present-some (some (Json.string t)) x h = h
  present-some (some (Json.object o)) x h = h
  present-some none x h = absurd (cc h)

  pub none-of : (o : Option (Json F)) → is_some o ≡ false → o ≡ none
  none-of none h = refl
  none-of (some x) h = absurd (cc h)
