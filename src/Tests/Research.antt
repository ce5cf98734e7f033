-- ===== src/Tests/Research.antt =====
-- The gate of the experiments on concrete inputs.
use hermes_crypto_lab.Base.{◌≡◌, refl, length, none, some, true, [], ◌∷◌, String}
use hermes_crypto_lab.Gate.{
  Gate, contains, add, set_of, subset, new_gate, record_training, set_finalists, record_validation,
  lock_candidate, assert_test_access, training, finalists, validation, lock, apply, Reach, here,
  call,
}
use hermes_crypto_lab.Gate.Ordering.{assert_test_access-ordered}

abbrev strip : String → String
strip s = s

-- Two candidates are trained, one is declared, validated and locked.
abbrev gate : Gate
gate = record {
  expected_training_trials = 2;
  training_ids = [];
  finalist_ids = none;
  validated_ids = [];
  locked_candidate_id = none;
}

abbrev trained_one : Gate
trained_one = record {
  expected_training_trials = 2;
  training_ids = "a" ∷ [];
  finalist_ids = none;
  validated_ids = [];
  locked_candidate_id = none;
}

abbrev trained : Gate
trained = record {
  expected_training_trials = 2;
  training_ids = "b" ∷ "a" ∷ [];
  finalist_ids = none;
  validated_ids = [];
  locked_candidate_id = none;
}

abbrev declared : Gate
declared = record {
  expected_training_trials = 2;
  training_ids = "b" ∷ "a" ∷ [];
  finalist_ids = some ("a" ∷ []);
  validated_ids = [];
  locked_candidate_id = none;
}

abbrev validated : Gate
validated = record {
  expected_training_trials = 2;
  training_ids = "b" ∷ "a" ∷ [];
  finalist_ids = some ("a" ∷ []);
  validated_ids = "a" ∷ [];
  locked_candidate_id = none;
}

abbrev locked : Gate
locked = record {
  expected_training_trials = 2;
  training_ids = "b" ∷ "a" ∷ [];
  finalist_ids = some ("a" ∷ []);
  validated_ids = "a" ∷ [];
  locked_candidate_id = some "a";
}

Reach-trained : Reach strip gate trained
unfolding apply record_training set_finalists record_validation lock_candidate contains add set_of
    subset
Reach-trained =
    call (training "b") trained_one trained (call (training "a") gate trained_one here refl) refl

Reach-locked : Reach strip gate locked
unfolding apply record_training set_finalists record_validation lock_candidate contains add set_of
    subset
Reach-locked =
    call (lock "a") validated locked
      (call (validation "a") declared validated
        (call (finalists (some (some "a" ∷ []))) trained declared Reach-trained refl) refl)
      refl

assert_test_access-ordered_example :
    (contains locked.training_ids "a" ≡ true)
    × (contains locked.validated_ids "a" ≡ true)
    × (length locked.training_ids ≡ 2)
unfolding new_gate assert_test_access
assert_test_access-ordered_example =
    assert_test_access-ordered strip 2 gate locked "a" refl Reach-locked refl

Reach-again : Reach strip locked locked
unfolding apply record_training set_finalists record_validation lock_candidate contains add set_of
    subset
Reach-again = call (validation "a") locked locked here refl
