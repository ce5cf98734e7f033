-- ===== src/Store/Tolerance/Authority.antt =====
-- The authority of a tolerance of `resolve_persisted_quantity_tolerance`.
use text.Mathlib.Text.{◌==◌ as str_eq}
use text.Mathlib.TextEquality.{eq_iff}
use mathlib.Core.Path.{subst}
use hermes_crypto_lab.Base.{
  arith, ◌≡◌, ◌↔◌, ◌∙◌, refl, ap, String, Option, none, some, Bool, true, false, not, ◌&&◌, ◌||◌,
  ok, >>=-eq-ok, ok_eq, raise_if-passed, and-true, is_some,
}
use hermes_crypto_lab.Base.Int.{negsuc}
use hermes_crypto_lab.Decimal.{finite}
use hermes_crypto_lab.Float.{FloatOps, Number, as_real, f_zero}
use hermes_crypto_lab.Store.Tolerance.{
  Json, Entries, lookup, keys_of, get, as_object, is_text, is_string, legacy_keys, within,
  same_keys, authority, parsed, object_or, has, version_of, legacy_result, in_bounds, bounded,
  tolerance_of, governed_result, by_authority, resolve_persisted_quantity_tolerance,
}
use hermes_crypto_lab.Store.Tolerance.Reading.{
  not-false, IsAmong, within-IsAmong, is_text-string, as_object-object, present-some, none-of,
}

module _ (fl : FloatOps) (loads : String → Option (Json fl.F)) (sha256 : Json fl.F → String)
    (pinned_hash : String) where
  open fl use {F, isfinite, lt, le, of_decimal}

  -- The economic specification of a governed text: it is under the pinned hash, which the text
  -- repeats, both have their version, and its execution part has the tolerance, which is finite,
  -- above zero and at most 1e-7.
  pub record IsGoverned (spec : Entries F) (t : F) (economic execution : Entries F) (n : Number F)
      : Type 0 where
    pub versioned :
        lookup "quantity_tolerance_authority_version" spec
        ≡ some (Json.string "quantity-tolerance-v1")
    pub holds : lookup "economic_spec_v2" spec ≡ some (Json.object economic)
    pub pinned : sha256 (Json.object economic) ≡ pinned_hash
    pub repeated : lookup "economic_spec_v2_sha256" spec ≡ some (Json.string pinned_hash)
    pub economic_version : lookup "version" economic ≡ some (Json.string "economic-spec-v2")
    pub executes : lookup "execution" economic ≡ some (Json.object execution)
    pub tolerates : lookup "quantity_tolerance" execution ≡ some (Json.number n)
    pub reads : as_real fl n ≡ some t
    pub bounds :
        (isfinite t ≡ true)
        × (lt (f_zero fl) t ≡ true)
        × (le t (of_decimal (finite false 1 (negsuc 6))) ≡ true)

  -- A text of the first version has its keys, all of them and no other.
  pub record IsLegacy (spec : Entries F) : Type 0 where
    pub no_economic : lookup "economic_spec_v2" spec ≡ none
    pub no_version : lookup "quantity_tolerance_authority_version" spec ≡ none
    pub no_hash : lookup "economic_spec_v2_sha256" spec ≡ none
    pub keys : (k : String) → IsAmong k (keys_of spec) ↔ IsAmong k legacy_keys

  abbrev pub RestsOn : Entries F → F → F × String × Bool → Type 0
  RestsOn spec legacy (t, version, true) =
      (version ≡ "quantity-tolerance-v1")
      × ((economic : Entries F) × (execution : Entries F) × (n : Number F) × IsGoverned spec t
            economic execution n)
  RestsOn spec legacy (t, version, false) =
      (version ≡ "legacy-forward-spec-v1") × (t ≡ legacy) × IsLegacy spec

  bounded-bounds :
      (x : Option F) (t : F)
      → bounded fl loads sha256 pinned_hash x ≡ ok t
      → (x ≡ some t)
        × (isfinite t ≡ true)
        × (lt (f_zero fl) t ≡ true)
        × (le t (of_decimal (finite false 1 (negsuc 6))) ≡ true)
  unfolding bounded
  bounded-bounds none t e = absurd (cc e)
  bounded-bounds (some x) t e =
      let (good, done) =
        raise_if-passed (not (isfinite x && in_bounds fl loads sha256 pinned_hash x)) _ _ e in
      let same : x ≡ t = ok_eq _ _ done in rw (← same) (ground arith)

  tolerance_of-bounds :
      (v : Option (Json F)) (t : F)
      → tolerance_of fl loads sha256 pinned_hash v ≡ ok t
      → (n : Number F) × (v ≡ some (Json.number n))
        × (as_real fl n ≡ some t)
        × (isfinite t ≡ true)
        × (lt (f_zero fl) t ≡ true)
        × (le t (of_decimal (finite false 1 (negsuc 6))) ≡ true)
  tolerance_of-bounds none t e = absurd (cc e)
  tolerance_of-bounds (some (Json.number n)) t e =
      let (reads, finite_t, positive, small) = bounded-bounds (as_real fl n) t e in
      (n, refl, reads, finite_t, positive, small)
  tolerance_of-bounds (some Json.null) t e = absurd (cc e)
  tolerance_of-bounds (some Json.array) t e = absurd (cc e)
  tolerance_of-bounds (some (Json.boolean b)) t e = absurd (cc e)
  tolerance_of-bounds (some (Json.string s)) t e = absurd (cc e)
  tolerance_of-bounds (some (Json.object o)) t e = absurd (cc e)

  object_or-some :
      (message : String) (x : Option (Entries F)) (spec : Entries F)
      → object_or fl loads sha256 pinned_hash message x ≡ ok spec
      → x ≡ some spec
  object_or-some message none spec h = absurd (cc h)
  object_or-some message (some y) spec h = ap some (ok_eq _ _ h)

  governed-RestsOn :
      (spec : Entries F) (legacy : F) (economic : Json F) (r : F × String × Bool)
      → get "economic_spec_v2" spec ≡ some economic
      → governed_result fl loads sha256 pinned_hash spec economic ≡ ok r
      → RestsOn spec legacy r
  unfolding governed_result
  governed-RestsOn spec legacy economic r found e =
      let (versioned, e1) =
        raise_if-passed (not (is_text authority (version_of fl loads sha256 pinned_hash spec))) _ _
          e in
      let (entries, an_object, e2) =
        >>=-eq-ok
          (object_or fl loads sha256 pinned_hash "Persisted economic specification is malformed"
            (as_object (some economic)))
          _ e1 in
      let (economic_version, e3) =
        raise_if-passed (not (is_text "economic-spec-v2" (get "version" entries))) _ _ e2 in
      let (pinned, e4) = raise_if-passed (not (str_eq (sha256 economic) pinned_hash)) _ _ e3 in
      let (_, e5) =
        raise_if-passed (not (has fl loads sha256 pinned_hash "economic_spec_v2_sha256" spec)) _ _
          e4 in
      let (repeated, e6) =
        raise_if-passed (not (is_text (sha256 economic) (get "economic_spec_v2_sha256" spec))) _ _
          e5 in
      let (execution, executes, e7) =
        >>=-eq-ok
          (object_or fl loads sha256 pinned_hash
            "Persisted quantity tolerance is missing from economic specification v2"
            (as_object (get "execution" entries)))
          _ e6 in
      let (t, taken, done) =
        >>=-eq-ok (tolerance_of fl loads sha256 pinned_hash (lookup "quantity_tolerance" execution))
          _ e7 in
      let (n, tolerates, reads, finite_t, positive, small) =
        tolerance_of-bounds (lookup "quantity_tolerance" execution) t taken in
      let same : some economic ≡ some (Json.object entries) =
        as_object-object (some economic) entries (object_or-some _ _ entries an_object) in
      let contents : economic ≡ Json.object entries = cc same in
      let hash : sha256 economic ≡ pinned_hash =
        (eq_iff (sha256 economic) pinned_hash).0 (not-false _ pinned) in
      subst (RestsOn spec legacy) (ok_eq _ _ done) (
        refl,
        (
          entries,
          execution,
          n,
          record {
            versioned = present-some _ _ (is_text-string _ _ (not-false _ versioned));
            holds = present-some _ _ (found ∙ same);
            pinned = subst (λ j. sha256 j ≡ pinned_hash) contents hash;
            repeated = present-some _ _ (
                subst (λ h. get "economic_spec_v2_sha256" spec ≡ some (Json.string h)) hash
                  (is_text-string _ _ (not-false _ repeated)));
            economic_version = present-some _ _ (is_text-string _ _ (not-false _ economic_version));
            executes =
                present-some _ _
                  (as_object-object _ execution (object_or-some _ _ execution executes));
            tolerates = tolerates;
            reads = reads;
            bounds = (finite_t, positive, small);
          },
        ),
      )

  legacy-RestsOn :
      (spec : Entries F) (legacy : F) (r : F × String × Bool)
      → get "economic_spec_v2" spec ≡ none
      → legacy_result fl loads sha256 pinned_hash legacy spec ≡ ok r
      → RestsOn spec legacy r
  unfolding legacy_result
  legacy-RestsOn spec legacy r found e =
      let (absent, e1) =
        raise_if-passed
          (has fl loads sha256 pinned_hash "economic_spec_v2" spec
            || has fl loads sha256 pinned_hash "quantity_tolerance_authority_version" spec
            || has fl loads sha256 pinned_hash "economic_spec_v2_sha256" spec)
          _ _ e in
      let (keys, done) = raise_if-passed (not (same_keys (keys_of spec) legacy_keys)) _ _ e1 in
      let (here, there) =
        and-true (within (keys_of spec) legacy_keys) (within legacy_keys (keys_of spec))
          (not-false _ keys) in
      subst (RestsOn spec legacy) (ok_eq _ _ done) (
        refl,
        refl,
        record {
          no_economic = none-of _ (ground arith);
          no_version = none-of _ (ground arith);
          no_hash = none-of _ (ground arith);
          keys = λ k. (
            within-IsAmong k (keys_of spec) legacy_keys here,
            within-IsAmong k legacy_keys (keys_of spec) there,
          );
        },
      )

  by_authority-RestsOn :
      (spec : Entries F) (legacy : F) (r : F × String × Bool) (economic : Option (Json F))
      → get "economic_spec_v2" spec ≡ economic
      → by_authority fl loads sha256 pinned_hash legacy spec economic ≡ ok r
      → RestsOn spec legacy r
  by_authority-RestsOn spec legacy r none found e = legacy-RestsOn spec legacy r found e
  by_authority-RestsOn spec legacy r (some economic) found e =
      governed-RestsOn spec legacy economic r found e

  -- A tolerance that is resolved as governed is the number that the specification has for
  -- `quantity_tolerance` in the execution part of its economic specification; it is finite, above
  -- zero and at most 1e-7, the economic specification has the pinned hash, which the specification
  -- repeats, and both have their version. One that is resolved as legacy is the legacy tolerance, and
  -- the keys of the specification are those of the first version, all of them and no other.
  pub resolve_persisted_quantity_tolerance-RestsOn :
      (raw : Json F) (legacy t : F) (version : String) (governed : Bool)
      → resolve_persisted_quantity_tolerance fl loads sha256 pinned_hash raw legacy
        ≡ ok (t, version, governed)
      → (spec : Entries F) × (as_object (parsed fl loads sha256 pinned_hash raw) ≡ some spec)
        × RestsOn spec legacy (t, version, governed)
  unfolding resolve_persisted_quantity_tolerance
  resolve_persisted_quantity_tolerance-RestsOn raw legacy t version governed e =
      let (spec, read, e1) =
        >>=-eq-ok
          (object_or fl loads sha256 pinned_hash "Persisted experiment specification is malformed"
            (as_object (parsed fl loads sha256 pinned_hash raw)))
          _ e in
      let (_, e2) =
        raise_if-passed
          (is_some (version_of fl loads sha256 pinned_hash spec)
            && not (is_string (version_of fl loads sha256 pinned_hash spec)))
          _ _ e1 in
      let (_, e3) =
        raise_if-passed
          (is_some (version_of fl loads sha256 pinned_hash spec)
            && not (is_text authority (version_of fl loads sha256 pinned_hash spec)))
          _ _ e2 in
      (
        spec,
        object_or-some _ _ spec read,
        by_authority-RestsOn spec legacy (t, version, governed) (get "economic_spec_v2" spec) refl
            e3,
      )
