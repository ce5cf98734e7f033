-- ===== src/Gate.antt =====
-- `ExperimentGate` of src/experiment_manager.py: training, declared finalists, validation, the lock
-- of one candidate, and the access to the final test. A set of identities is a list without
-- repetitions. `str.strip` is the interpreter's and a parameter.
pub mod Ordering
use text.Mathlib.Text.{◌==◌ as str_eq}
use hermes_crypto_lab.Base.{
  ℕ, ◌≡◌, String, Option, none, some, Bool, true, false, not, ◌||◌, ◌&&◌, List, [], ◌∷◌, any_of,
  all_of, length, ltb, ◌==◌, if◌then◌else◌, is_some, Result, ok, err, value_error, permission_error,
  raise_if, ◌>>◌, ◌>>=◌,
}

pub record Gate : Type 0 where
  pub expected_training_trials : ℕ
  pub training_ids : List String
  pub finalist_ids : Option (List String)
  pub validated_ids : List String
  pub locked_candidate_id : Option String

-- `id in ids`
unfoldable pub contains : List String → String → Bool
contains [] id = false
contains (x ∷ xs) id = str_eq x id || contains xs id

-- `ids.add(id)`
unfoldable pub add : String → List String → List String
add id ids = if contains ids id then ids else id ∷ ids

-- `set(ids)`
unfoldable pub set_of : List String → List String
set_of [] = []
set_of (x ∷ xs) = add x (set_of xs)

-- `ids.issubset(others)`
unfoldable pub subset : List String → List String → Bool
subset ids others = all_of (contains others) ids

-- The constructor's argument is an exact integer; this is the gate for a positive one.
unfoldable pub new_gate : ℕ → Result Gate
new_gate trials = do
  raise_if (trials == 0) (value_error "expected_training_trials must be a positive integer")
  ok (record {
    expected_training_trials = trials;
    training_ids = [];
    finalist_ids = none;
    validated_ids = [];
    locked_candidate_id = none;
  })

unfoldable pub record_training : String → Gate → Result Gate
record_training id g = do
  raise_if (is_some g.finalist_ids) (permission_error "Training stage is already closed")
  ok (record g { training_ids = add id g.training_ids })

-- An element of the argument: `none` if it is no text.
abbrev pub not_canonical : (String → String) → Option String → Bool
not_canonical strip none = true
not_canonical strip (some id) = str_eq (strip id) "" || not (str_eq id (strip id))

abbrev pub texts : List (Option String) → List String
texts [] = []
texts (none ∷ rest) = texts rest
texts (some id ∷ rest) = id ∷ texts rest

-- The argument is `none` if it is no list.
abbrev pub listed : Option (List (Option String)) → List (Option String)
listed none = []
listed (some ids) = ids

unfoldable pub set_finalists :
    (String → String) → Option (List (Option String)) → Gate → Result Gate
set_finalists strip argument g = do
  let candidate_ids = listed argument
  let finalists = set_of (texts candidate_ids)
  raise_if (length candidate_ids == 0) (value_error "Finalists must be a non-empty list")
  raise_if (any_of (not_canonical strip) candidate_ids)
      (value_error "Finalist IDs must be non-empty canonical strings")
  raise_if (not (length candidate_ids == length finalists))
      (value_error "Finalist IDs must be unique")
  raise_if (ltb (length g.training_ids) (length candidate_ids))
      (value_error "Finalist count cannot exceed completed training candidates")
  raise_if (not (length g.training_ids == g.expected_training_trials))
      (permission_error "All training trials must finish before finalist selection")
  raise_if (not (subset finalists g.training_ids))
      (value_error "Finalists must come from tested training candidates")
  ok (record g { finalist_ids = some finalists })

-- `finalist_ids is None or candidate_id not in finalist_ids`
abbrev pub undeclared : Option (List String) → String → Bool
undeclared none id = true
undeclared (some ids) id = not (contains ids id)

unfoldable pub record_validation : String → Gate → Result Gate
record_validation id g = do
  raise_if (undeclared g.finalist_ids id)
      (permission_error "Only declared finalists may access validation")
  ok (record g { validated_ids = add id g.validated_ids })

-- `validated_ids != finalist_ids`
abbrev pub differ : List String → Option (List String) → Bool
differ validated none = true
differ validated (some ids) = not (subset validated ids && subset ids validated)

unfoldable pub lock_candidate : String → Gate → Result Gate
lock_candidate id g = do
  raise_if (is_some g.locked_candidate_id) (permission_error "A candidate is already locked")
  raise_if (not (is_some g.finalist_ids))
      (permission_error "Finalists must be declared before a candidate can be locked")
  raise_if (differ g.validated_ids g.finalist_ids) (
      permission_error
        "All declared finalists must finish validation before a candidate can be locked")
  raise_if (undeclared g.finalist_ids id)
      (permission_error "Only a declared finalist can be locked")
  ok (record g { locked_candidate_id = some id })

abbrev pub is_locked : Option String → String → Bool
is_locked none id = false
is_locked (some x) id = str_eq x id

unfoldable pub assert_test_access : String → Gate → Result (Unit {0})
assert_test_access id g =
    raise_if (not (is_locked g.locked_candidate_id id))
      (permission_error "Final test data is sealed until this candidate is locked")

-- A call of one method.
pub data Call : Type 0 where
  training : String → Call
  finalists : Option (List (Option String)) → Call
  validation : String → Call
  lock : String → Call

unfoldable pub apply : (String → String) → Call → Gate → Result Gate
apply strip (training id) g = record_training id g
apply strip (finalists ids) g = set_finalists strip ids g
apply strip (validation id) g = record_validation id g
apply strip (lock id) g = lock_candidate id g

-- The gates that calls lead to. A call that raises leaves the gate as it was.
pub data Reach (strip : String → String) (start : Gate) : Gate → Type 0 where
  here : Reach strip start start
  call :
      (c : Call) (g g' : Gate)
      → Reach strip start g
      → apply strip c g ≡ ok g'
      → Reach strip start g'
