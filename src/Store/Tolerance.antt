-- ===== src/Store/Tolerance.antt =====
-- `resolve_persisted_quantity_tolerance` of src/paper_store.py: the tolerance of a persisted
-- specification, and the authority that it rests on. `json.loads` and the SHA-256 of the canonical
-- text of a value are the library's and parameters; so is the hash that src/forward_governance.py
-- pins. A number stands within the range of a float.
pub mod Reading
pub mod Authority
use text.Mathlib.Text.{◌==◌ as str_eq}
use hermes_crypto_lab.Base.{
  String, Option, none, some, Bool, true, false, not, ◌||◌, ◌&&◌, List, [], ◌∷◌, any_of, all_of,
  if◌then◌else◌, is_some, is_none, Result, ok, err, value_error, raise_if, ◌>>=◌, ◌>>◌,
}
use hermes_crypto_lab.Base.Int.{ℤ, negsuc}
use hermes_crypto_lab.Decimal.{finite}
use hermes_crypto_lab.Float.{FloatOps, Number, integer, floating, as_real, f_zero}

-- What `json.loads` returns.
mutual
  pub data Json (F : Type 0) : Type 0 where
    null array : Json F
    boolean : Bool → Json F
    number : Number F → Json F
    string : String → Json F
    object : Entries F → Json F

  pub data Entries (F : Type 0) : Type 0 where
    no_entries : Entries F
    entry : String → Json F → Entries F → Entries F

module _ {F : Type 0} where
  -- `entries.get(key)` as far as the key is there; a key is there once.
  unfoldable pub lookup : String → Entries F → Option (Json F)
  lookup key no_entries = none
  lookup key (entry k value rest) =
      let later = lookup key rest in if str_eq k key then some value else later

  unfoldable pub keys_of : Entries F → List String
  keys_of no_entries = []
  keys_of (entry k value rest) = k ∷ keys_of rest

  -- `entries.get(key)`, which is None for a null as for a missing key
  abbrev pub present : Option (Json F) → Option (Json F)
  present (some null) = none
  present value = value

  abbrev pub get : String → Entries F → Option (Json F)
  get key entries = present (lookup key entries)

  -- `type(value) is dict`, and the text of a value that is one
  abbrev pub as_object : Option (Json F) → Option (Entries F)
  as_object (some (object entries)) = some entries
  as_object _ = none

  abbrev pub is_text : String → Option (Json F) → Bool
  is_text s (some (string t)) = str_eq t s
  is_text s _ = false

  abbrev pub is_string : Option (Json F) → Bool
  is_string (some (string t)) = true
  is_string _ = false

abbrev pub legacy_keys : List String
legacy_keys =
    "acceptance_criteria" ∷ "benchmark_definitions" ∷ "cost_assumptions" ∷ "experiment_id"
    ∷ "experiment_start_utc" ∷ "incident_policy" ∷ "locked_strategy" ∷ "locked_strategy_hash_sha256"
    ∷ "minimum_observation_weeks" ∷ "preferred_evaluation_weeks" ∷ "prohibited_changes"
    ∷ "rejection_criteria" ∷ "research_status" ∷ "schedule" ∷ []

abbrev pub within : List String → List String → Bool
within xs ys = all_of (λ x. any_of (λ y. str_eq y x) ys) xs

abbrev pub same_keys : List String → List String → Bool
same_keys xs ys = within xs ys && within ys xs

abbrev pub authority : String
authority = "quantity-tolerance-v1"

module _ (fl : FloatOps) (loads : String → Option (Json fl.F)) (sha256 : Json fl.F → String)
    (pinned_hash : String) where
  open fl use {F, isfinite, lt, le, of_decimal}

  abbrev pub parsed : Json F → Option (Json F)
  parsed (string s) = loads s
  parsed value = some value

  abbrev pub object_or : String → Option (Entries F) → Result (Entries F)
  object_or message none = err (value_error message)
  object_or message (some entries) = ok entries

  abbrev pub has : String → Entries F → Bool
  has key entries = is_some (lookup key entries)

  abbrev pub version_of : Entries F → Option (Json F)
  version_of = get "quantity_tolerance_authority_version"

  unfoldable pub legacy_result : F → Entries F → Result (F × String × Bool)
  legacy_result legacy_tolerance spec = do
    raise_if
        (has "economic_spec_v2" spec
          || has "quantity_tolerance_authority_version" spec
          || has "economic_spec_v2_sha256" spec)
        (value_error "Persisted quantity tolerance is missing from governed specification")
    raise_if (not (same_keys (keys_of spec) legacy_keys)) (
        value_error
          "Persisted quantity tolerance authority is missing or legacy specification is malformed")
    ok (legacy_tolerance, "legacy-forward-spec-v1", false)

  -- 1e-7
  abbrev pub largest : F
  largest = of_decimal (finite false 1 (negsuc 6))

  abbrev pub in_bounds : F → Bool
  in_bounds t = lt (f_zero fl) t && le t largest

  unfoldable pub bounded : Option F → Result F
  bounded none = err (value_error "Persisted quantity tolerance must be an exact numeric value")
  bounded (some t) = do
    raise_if (not (isfinite t && in_bounds t))
        (value_error "Persisted quantity tolerance is invalid")
    ok t

  abbrev pub tolerance_of : Option (Json F) → Result F
  tolerance_of none =
      err (value_error "Persisted quantity tolerance is missing from economic specification v2")
  tolerance_of (some (number n)) = bounded (as_real fl n)
  tolerance_of (some value) =
      err (value_error "Persisted quantity tolerance must be an exact numeric value")

  unfoldable pub governed_result : Entries F → Json F → Result (F × String × Bool)
  governed_result spec economic = do
    raise_if (not (is_text authority (version_of spec)))
        (value_error "Persisted quantity tolerance authority version is missing")
    entries ← object_or "Persisted economic specification is malformed" (as_object (some economic))
    raise_if (not (is_text "economic-spec-v2" (get "version" entries)))
        (value_error "Persisted economic specification is malformed")
    raise_if (not (str_eq (sha256 economic) pinned_hash))
        (value_error "Persisted economic specification hash is invalid")
    raise_if (not (has "economic_spec_v2_sha256" spec))
        (value_error "Persisted quantity tolerance economic specification hash is missing")
    raise_if (not (is_text (sha256 economic) (get "economic_spec_v2_sha256" spec)))
        (value_error "Persisted economic specification hash conflicts with its contents")
    execution ←
        object_or "Persisted quantity tolerance is missing from economic specification v2"
          (as_object (get "execution" entries))
    tolerance ← tolerance_of (lookup "quantity_tolerance" execution)
    ok (tolerance, authority, true)

  abbrev pub by_authority : F → Entries F → Option (Json F) → Result (F × String × Bool)
  by_authority legacy_tolerance spec none = legacy_result legacy_tolerance spec
  by_authority legacy_tolerance spec (some economic) = governed_result spec economic

  -- `resolve_persisted_quantity_tolerance`
  unfoldable pub resolve_persisted_quantity_tolerance : Json F → F → Result (F × String × Bool)
  resolve_persisted_quantity_tolerance raw legacy_tolerance = do
    spec ← object_or "Persisted experiment specification is malformed" (as_object (parsed raw))
    raise_if (is_some (version_of spec) && not (is_string (version_of spec)))
        (value_error "Persisted quantity tolerance authority version is malformed")
    raise_if (is_some (version_of spec) && not (is_text authority (version_of spec)))
        (value_error "Persisted quantity tolerance authority version is unsupported")
    by_authority legacy_tolerance spec (get "economic_spec_v2" spec)
