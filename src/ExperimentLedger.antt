-- ===== src/ExperimentLedger.antt =====
-- `ExperimentLedger` of src/experiment_ledger.py: records chained by hash in a file that is only
-- appended to, and the seal that ends it. The file is the list of its records, oldest first; the
-- bytes of a record (`json.dumps` with sorted keys) and their SHA-256 are not of this repository, and
-- one parameter `digest`. Values of the payload are of any type `V`.
pub mod Chain
use text.Mathlib.Text.{◌==◌ as str_eq}
use hermes_crypto_lab.Base.{
  ℕ, ◌+◌, String, Option, none, some, Bool, true, false, not, ◌||◌, ◌&&◌, List, [], ◌∷◌, ◌++◌,
  any_of, ◌==◌, if◌then◌else◌, Result, ok, err, value_error, permission_error, raise_if, ◌>>◌,
  ◌>>=◌,
}

pub record Unsigned {ℓ} (V : Type ℓ) : Type ℓ where
  pub sequence : ℕ
  pub recorded_at_utc : String
  pub previous_hash : String
  pub payload : List (String × V)

pub record Stored {ℓ} (V : Type ℓ) : Type ℓ where
  pub unsigned : Unsigned V
  pub record_hash : String

pub record Seal : Type 0 where
  pub final_hash : String
  pub record_count : ℕ

-- The content of the seal's file.
pub data SealFile : Type 0 where
  no_seal malformed_seal : SealFile
  sealed : Seal → SealFile

-- `ledger_manifest.json`: no file; no JSON; not about this ledger; or about it, with the keys
-- expected or others, and its four values (`none` where the type is not the one expected).
pub data Manifest : Type 0 where
  no_manifest malformed_manifest other_manifest : Manifest
  manifest : Bool → Option ℕ → String → Option Bool → Option Bool → Manifest

pub record Ledger {ℓ} (V : Type ℓ) : Type ℓ where
  pub records : List (Stored V)
  pub seal : SealFile
  pub finalized : Bool
  pub last_hash : String
  pub sequence : ℕ

-- `"0" * 64`
abbrev pub zero_hash : String
zero_hash = "0000000000000000000000000000000000000000000000000000000000000000"

-- `_RESERVED_KEYS`
abbrev pub is_reserved : String → Bool
is_reserved key =
    str_eq key "sequence"
    || str_eq key "recorded_at_utc"
    || str_eq key "previous_hash"
    || str_eq key "record_hash"

abbrev pub same_seal : Seal → Seal → Bool
same_seal a b = str_eq a.final_hash b.final_hash && (a.record_count == b.record_count)

abbrev pub is_true_value : Option Bool → Bool
is_true_value none = false
is_true_value (some b) = b

abbrev pub is_count : Option ℕ → ℕ → Bool
is_count none n = false
is_count (some k) n = k == n

-- `_has_historical_seal`
unfoldable pub has_historical_seal : Manifest → String → ℕ → Result Bool
has_historical_seal no_manifest last n = ok false
has_historical_seal malformed_manifest last n =
    err (value_error "Historical ledger manifest is invalid")
has_historical_seal other_manifest last n = ok false
has_historical_seal (manifest expected_keys count final verified read_only) last n = do
  raise_if
      (not expected_keys
        || not (is_true_value verified)
        || not (is_true_value read_only)
        || not (is_count count n)
        || not (str_eq final last))
      (value_error "Historical ledger manifest does not seal ledger")
  ok true

module _ {ℓ} {V : Type ℓ} (digest : Unsigned V → String) where
  -- The loop of `verify`, from an expected hash and sequence on.
  unfoldable pub verify_from : String → ℕ → List (Stored V) → Bool
  verify_from previous n [] = true
  verify_from previous n (r ∷ rest) =
      (r.unsigned.sequence == n)
      && str_eq r.unsigned.previous_hash previous
      && str_eq (digest r.unsigned) r.record_hash
      && verify_from r.record_hash (n + 1) rest

  abbrev pub verify : List (Stored V) → Bool
  verify records = verify_from zero_hash 0 records

  -- `records[-1]["record_hash"]` and `records[-1]["sequence"] + 1`, or what they are at first
  unfoldable pub last_hash_of : String → List (Stored V) → String
  last_hash_of before [] = before
  last_hash_of before (r ∷ rest) = last_hash_of r.record_hash rest

  unfoldable pub next_sequence_of : ℕ → List (Stored V) → ℕ
  next_sequence_of before [] = before
  next_sequence_of before (r ∷ rest) = next_sequence_of (r.unsigned.sequence + 1) rest

  -- Whether the ledger is final, by the two files beside it.
  unfoldable pub finalized_by : SealFile → Manifest → String → ℕ → Result Bool
  finalized_by no_seal m last n = has_historical_seal m last n
  finalized_by malformed_seal m last n = err (value_error "Ledger seal is invalid")
  finalized_by (sealed s) m last n = do
    raise_if (not (same_seal s (record { final_hash = last; record_count = n })))
        (value_error "Ledger seal does not match ledger")
    ok true

  -- `ExperimentLedger(path)`
  unfoldable pub open_ledger : List (Stored V) → SealFile → Manifest → Result (Ledger V)
  open_ledger records seal m = do
    raise_if (not (verify records)) (value_error "Ledger hash chain is invalid")
    final ← finalized_by seal m (last_hash_of zero_hash records) (next_sequence_of 0 records)
    ok (record {
      records = records;
      seal = seal;
      finalized = final;
      last_hash = last_hash_of zero_hash records;
      sequence = next_sequence_of 0 records;
    })

  abbrev pub next_record : Ledger V → String → List (String × V) → Unsigned V
  next_record l now payload = record {
    sequence = l.sequence;
    recorded_at_utc = now;
    previous_hash = l.last_hash;
    payload = payload;
  }

  -- `append`, at a time `now`
  unfoldable pub append : String → List (String × V) → Ledger V → Result (Ledger V)
  append now payload l = do
    raise_if l.finalized (permission_error "Experiment ledger has been finalized")
    raise_if (any_of (λ (key, value). is_reserved key) payload)
        (value_error "Payload contains reserved ledger metadata")
    let unsigned = next_record l now payload
    let stored : Stored V = record { unsigned = unsigned; record_hash = digest unsigned }
    ok (record l {
      records = l.records ++ (stored ∷ []);
      last_hash = digest unsigned;
      sequence = l.sequence + 1;
    })

  -- The seal that `finalize` leaves: written if there is none, and otherwise compared.
  unfoldable pub write_seal : Seal → SealFile → Result SealFile
  write_seal s no_seal = ok (sealed s)
  write_seal s malformed_seal = err (value_error "json")
  write_seal s (sealed existing) = do
    raise_if (not (same_seal existing s)) (value_error "Ledger seal does not match ledger")
    ok (sealed existing)

  unfoldable pub finalize : Ledger V → Result (Ledger V)
  finalize l = do
    raise_if (not (verify l.records)) (value_error "Cannot finalize an invalid experiment ledger")
    seal ← write_seal (record { final_hash = l.last_hash; record_count = l.sequence }) l.seal
    ok (record l { seal = seal; finalized = true })
