-- ===== src/Tests/Records.antt =====
-- The experiment ledger on concrete inputs.
use hermes_crypto_lab.Base.{
  ℕ, ◌+◌, ◌≡◌, refl, length, true, false, [], ◌∷◌, ok, err, permission_error, String,
}
use hermes_crypto_lab.ExperimentLedger.{
  Unsigned, Stored, Ledger, no_seal, sealed, no_manifest, zero_hash, verify_from, last_hash_of,
  next_sequence_of, append, write_seal, finalize, open_ledger,
}
use hermes_crypto_lab.ExperimentLedger.Chain.{
  IsConsistent, append-IsConsistent, verify-injective, finalize-open_ledger,
}

-- Test data: a digest that keeps the time of a record.
abbrev digest : Unsigned ℕ → String
digest u = u.recorded_at_utc

abbrev first : Stored ℕ
first = record {
  unsigned = record {
    sequence = 0;
    recorded_at_utc = "t0";
    previous_hash = zero_hash;
    payload = ("trial", 1) ∷ [];
  };
  record_hash = "t0";
}

abbrev ledger : Ledger ℕ
ledger = record {
  records = first ∷ [];
  seal = no_seal;
  finalized = false;
  last_hash = "t0";
  sequence = 1;
}

abbrev second : Stored ℕ
second = record {
  unsigned = record {
    sequence = 1;
    recorded_at_utc = "t1";
    previous_hash = "t0";
    payload = ("trial", 2) ∷ [];
  };
  record_hash = "t1";
}

abbrev appended : Ledger ℕ
appended = record {
  records = first ∷ second ∷ [];
  seal = no_seal;
  finalized = false;
  last_hash = "t1";
  sequence = 2;
}

ledger-IsConsistent : IsConsistent digest ledger
unfolding verify_from last_hash_of next_sequence_of
ledger-IsConsistent = record { chained = refl; last = refl; next = refl }

append-IsConsistent_example :
    IsConsistent digest appended × (length appended.records ≡ length ledger.records + 1)
unfolding append
append-IsConsistent_example =
    append-IsConsistent digest "t1" (("trial", 2) ∷ []) ledger appended ledger-IsConsistent refl

verify-injective_example : appended.records ≡ appended.records
unfolding verify_from
verify-injective_example =
    verify-injective digest appended.records appended.records (λ _. refl, (λ _. refl, tt)) refl refl
      refl refl

abbrev final_ledger : Ledger ℕ
final_ledger = record {
  records = first ∷ [];
  seal = sealed (record { final_hash = "t0"; record_count = 1 });
  finalized = true;
  last_hash = "t0";
  sequence = 1;
}

finalize-open_ledger_example :
    (open_ledger digest final_ledger.records final_ledger.seal no_manifest ≡ ok final_ledger)
    × (append digest "t1" (("trial", 2) ∷ []) final_ledger
        ≡ err (permission_error "Experiment ledger has been finalized"))
unfolding finalize verify_from write_seal
finalize-open_ledger_example =
    finalize-open_ledger digest ledger final_ledger no_manifest "t1" (("trial", 2) ∷ [])
      ledger-IsConsistent refl
