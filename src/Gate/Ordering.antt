-- ===== src/Gate/Ordering.antt =====
-- The order of the stages: what holds of a candidate that has access to the final test.
use text.Mathlib.Text.{◌==◌ as str_eq}
use text.Mathlib.TextEquality.{eq_iff}
use hermes_crypto_lab.Base.{
  ℕ, ◌≡◌, refl, ap, Option-cases, String, Option, none, some, true, List, [], ◌∷◌, all_of, length,
  ◌==◌, arith, is_some, ok, raise_if-passed, Bool-cases, inl, inr, ok_eq, and-true,
}
use hermes_crypto_lab.Gate.{
  Gate, contains, add, set_of, texts, listed, subset, new_gate, record_training, set_finalists,
  undeclared, record_validation, lock_candidate, is_locked, assert_test_access, Call, training,
  finalists, validation, lock, apply, Reach, here, call,
}

contains-add :
    (x id : String) (ids : List String) → contains ids id ≡ true → contains (add x ids) id ≡ true
unfolding contains add
contains-add x id ids h = ground arith

-- What holds of every gate that calls lead to: no training is counted twice; declared finalists
-- were trained, after all trials; a locked candidate was trained and validated.
pub record IsOrdered (g : Gate) : Type 0 where
  pub closed :
      (ids : List String)
      → g.finalist_ids ≡ some ids
      → (subset ids g.training_ids ≡ true) × (length g.training_ids ≡ g.expected_training_trials)
  pub ready :
      (id : String)
      → g.locked_candidate_id ≡ some id
      → (contains g.training_ids id ≡ true)
        × (contains g.validated_ids id ≡ true)
        × (is_some g.finalist_ids ≡ true)
        × (length g.training_ids ≡ g.expected_training_trials)

subset-contains :
    (ids others : List String) (id : String)
    → subset ids others ≡ true
    → contains ids id ≡ true
    → contains others id ≡ true
unfolding subset contains
subset-contains [] others id h k = absurd (cc k)
subset-contains (x ∷ ids) others id h k =
    let (first, rest) = and-true (contains others x) (all_of (contains others) ids) h in
    elim (Bool-cases (str_eq x id)) [
      | inl same ↦ rw (← (eq_iff x id).0 same) first
      | inr other ↦ subset-contains ids others id rest (rw other at k)
    ]

some_eq : {A : Type 0} (x y : A) → some x ≡ some y → x ≡ y
some_eq x y h = cc

training-IsOrdered :
    (id : String) (g g' : Gate) → IsOrdered g → record_training id g ≡ ok g' → IsOrdered g'
unfolding record_training
training-IsOrdered id g g' h e =
    let (open_stage, done) = raise_if-passed (is_some g.finalist_ids) _ _ e in
    rw (← ok_eq _ _ done) (record {
      closed = λ ids k. absurd (cc (rw k at open_stage));
      ready = λ x k. absurd (cc (rw (h.ready x k).2 at open_stage));
    })

set_finalists-passed :
    (strip : String → String) (argument : Option (List (Option String))) (g g' : Gate)
    → set_finalists strip argument g ≡ ok g'
    → (ids : List String) × (subset ids g.training_ids ≡ true)
      × (length g.training_ids ≡ g.expected_training_trials)
      × (g' ≡ record g { finalist_ids = some ids })
unfolding set_finalists
set_finalists-passed strip argument g g' e =
    (set_of (texts (listed argument)), ground arith, ground arith, ground arith)

finalists-IsOrdered :
    (strip : String → String) (argument : Option (List (Option String))) (g g' : Gate)
    → IsOrdered g
    → set_finalists strip argument g ≡ ok g'
    → IsOrdered g'
finalists-IsOrdered strip argument g g' h e =
    let (ids, inside, complete, same) = set_finalists-passed strip argument g g' e in
    rw same (record {
      closed = λ others k. (rw (some_eq ids others k) at inside, complete);
      ready =
          λ x k. let (trained, validated, _, all) = h.ready x k in (trained, validated, refl, all);
    })

validation-IsOrdered :
    (id : String) (g g' : Gate) → IsOrdered g → record_validation id g ≡ ok g' → IsOrdered g'
unfolding record_validation
validation-IsOrdered id g g' h e =
    let (_, done) = raise_if-passed (undeclared g.finalist_ids id) _ _ e in
    rw (← ok_eq _ _ done) (record {
      closed = h.closed;
      ready = λ x k.
          let (trained, validated, declared, all) = h.ready x k in
          (trained, contains-add id x g.validated_ids validated, declared, all);
    })

lock_candidate-passed :
    (id : String) (g g' : Gate)
    → lock_candidate id g ≡ ok g'
    → (g.locked_candidate_id ≡ none)
      × ((ids : List String) × (g.finalist_ids ≡ some ids)
          × (subset ids g.validated_ids ≡ true)
          × (contains ids id ≡ true)
          × (g' ≡ record g { locked_candidate_id = some id }))
unfolding lock_candidate
lock_candidate-passed id g g' e = elim (Option-cases g.finalist_ids) [
  | inl none_declared ↦ absurd (ground arith)
  | inr (ids, declared) ↦ (ground arith, (ids, declared, ground arith, ground arith, ground arith))
]

lock-IsOrdered :
    (id : String) (g g' : Gate) → IsOrdered g → lock_candidate id g ≡ ok g' → IsOrdered g'
lock-IsOrdered id g g' h e =
    let (_, (ids, declared, validated, inside, same)) = lock_candidate-passed id g g' e in
    let (trained, all) = h.closed ids declared in
    rw same (record {
      closed = h.closed;
      ready = λ x k.
          let locked : contains ids x ≡ true = rw (some_eq id x k) at inside in
          (
            subset-contains ids g.training_ids x trained locked,
            subset-contains ids g.validated_ids x validated locked,
            rw declared refl,
            all,
          );
    })

apply-IsOrdered :
    (strip : String → String) (c : Call) (g g' : Gate)
    → IsOrdered g
    → apply strip c g ≡ ok g'
    → IsOrdered g'
unfolding apply
apply-IsOrdered strip (training id) g g' h e = training-IsOrdered id g g' h e
apply-IsOrdered strip (finalists ids) g g' h e = finalists-IsOrdered strip ids g g' h e
apply-IsOrdered strip (validation id) g g' h e = validation-IsOrdered id g g' h e
apply-IsOrdered strip (lock id) g g' h e = lock-IsOrdered id g g' h e

Reach-IsOrdered :
    (strip : String → String) (g g' : Gate) → IsOrdered g → Reach strip g g' → IsOrdered g'
Reach-IsOrdered strip g g' h here = h
Reach-IsOrdered strip g g' h (call c a b before e) =
    apply-IsOrdered strip c a b (Reach-IsOrdered strip g a h before) e

new_gate-IsOrdered : (trials : ℕ) (g : Gate) → new_gate trials ≡ ok g → IsOrdered g
unfolding new_gate
new_gate-IsOrdered trials g e =
    let (_, done) = raise_if-passed (trials == 0) _ _ e in
    rw (← ok_eq _ _ done)
      (record { closed = λ ids k. absurd (cc k); ready = λ id k. absurd (cc k) })

is_locked-some : (o : Option String) (id : String) → is_locked o id ≡ true → o ≡ some id
is_locked-some none id h = absurd (cc h)
is_locked-some (some x) id h = ap (λ (y : String). some y) ((eq_iff x id).0 h)

-- After any calls on a new gate, access to the final test is given only for a candidate that was
-- trained and validated, when as many candidates were trained as the gate expects.
pub assert_test_access-ordered :
    (strip : String → String) (trials : ℕ) (g g' : Gate) (id : String)
    → new_gate trials ≡ ok g
    → Reach strip g g'
    → assert_test_access id g' ≡ ok tt
    → (contains g'.training_ids id ≡ true)
      × (contains g'.validated_ids id ≡ true)
      × (length g'.training_ids ≡ g'.expected_training_trials)
unfolding assert_test_access
assert_test_access-ordered strip trials g g' id e reached access =
    let h = Reach-IsOrdered strip g g' (new_gate-IsOrdered trials g e) reached in
    let locked = is_locked-some g'.locked_candidate_id id (ground arith) in
    let (trained, validated, _, all) = h.ready id locked in (trained, validated, all)
