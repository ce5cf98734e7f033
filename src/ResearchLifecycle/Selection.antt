-- ===== src/ResearchLifecycle/Selection.antt =====
-- What the contract lets through: selection only under an open second generation, and never
-- through the entry point of the first.
use text.Mathlib.Text.{◌==◌ as str_eq}
use hermes_crypto_lab.Base.{
  ◌≡◌, refl, true, false, not, arith, ok, err, permission_error, >>=-eq-ok, raise_if-passed,
  Bool-cases, inl, inr, ◌⊎◌,
}
use hermes_crypto_lab.ResearchLifecycle.{
  Payload, ContractFile, unavailable, no_object, object, ResearchLifecycle, no_specification,
  is_json_true, require_text, require_boolean, sealed_v1, open_v2, by_generation, load_payload,
  load_research_lifecycle, assert_candidate_selection_permitted,
  assert_current_v1_entrypoint_is_sealed, is_version_one,
}

-- The conditions of the second generation.
pub record IsOpen (l : ResearchLifecycle) : Type 0 where
  pub generation : str_eq l.research_generation "V2" ≡ true
  pub status : str_eq l.selection_status "OPEN" ≡ true
  pub unopened : l.final_test_opened ≡ false
  pub specified : no_specification l.research_specification_id ≡ false
  pub untouched : is_json_true l.untouched_oos_required ≡ true

open_v2-IsOpen :
    (l k : ResearchLifecycle)
    → str_eq l.research_generation "V2" ≡ true
    → open_v2 l ≡ ok k
    → IsOpen k
unfolding open_v2
open_v2-IsOpen l k v2 e =
    let same : l ≡ k = ground arith in
    rw (← same) (record {
      generation = v2;
      status = ground arith;
      unopened = ground arith;
      specified = ground arith;
      untouched = ground arith;
    })

by_generation-IsOpen :
    (l k : ResearchLifecycle)
    → by_generation l ≡ ok k
    → str_eq k.research_generation "V1" ≡ false
    → IsOpen k
unfolding by_generation sealed_v1
by_generation-IsOpen l k e not_v1 = elim (Bool-cases (str_eq l.research_generation "V1")) [
  | inl v1 ↦
      let same : l ≡ k = ground arith in
      let first : str_eq k.research_generation "V1" ≡ true = rw (← same) v1 in absurd (cc)
  | inr other ↦ elim (Bool-cases (str_eq l.research_generation "V2")) [
    | inl v2 ↦ open_v2-IsOpen l k v2 (rw (other, v2) at e)
    | inr neither ↦ absurd (cc (rw (other, neither) at e))
  ]
]

load_payload-by_generation :
    (p : Payload) (k : ResearchLifecycle)
    → load_payload p ≡ ok k
    → (l : ResearchLifecycle) × (by_generation l ≡ ok k)
unfolding load_payload
load_payload-by_generation p k e =
    let (_, e1) = raise_if-passed (not (is_version_one p.lifecycle_schema_version)) _ _ e in
    let (generation, _, e2) = >>=-eq-ok (require_text p.research_generation) _ e1 in
    let (status, _, e3) = >>=-eq-ok (require_text p.selection_status) _ e2 in
    let (reselection, _, e4) = >>=-eq-ok (require_boolean p.candidate_reselection_allowed) _ e3 in
    let (opened, _, done) = >>=-eq-ok (require_boolean p.final_test_opened) _ e4 in (_, done)

-- A loaded lifecycle that permits candidate selection is of the second generation, open, with the
-- final test unopened, a specification, and untouched out-of-sample data required.
pub selection_permitted-IsOpen :
    (c : ContractFile) (l : ResearchLifecycle)
    → load_research_lifecycle c ≡ ok l
    → assert_candidate_selection_permitted l ≡ ok tt
    → IsOpen l × (l.candidate_reselection_allowed ≡ true)
unfolding load_research_lifecycle assert_candidate_selection_permitted
selection_permitted-IsOpen unavailable l e permitted = absurd (cc e)
selection_permitted-IsOpen no_object l e permitted = absurd (cc e)
selection_permitted-IsOpen (object p) l e permitted =
    let (loaded, same) = load_payload-by_generation p l e in
    (by_generation-IsOpen loaded l same (ground arith), ground arith)

-- The entry point of the first generation raises `PermissionError` for every lifecycle.
assert_current_v1_entrypoint_is_sealed_lem :
    (l : ResearchLifecycle)
    → (assert_current_v1_entrypoint_is_sealed l
        ≡ err (
            permission_error
              "The current V1 entrypoint cannot execute a future research generation"))
      ⊎ (assert_current_v1_entrypoint_is_sealed l ≡ err (permission_error "V1 research is sealed"))
unfolding assert_current_v1_entrypoint_is_sealed assert_candidate_selection_permitted
assert_current_v1_entrypoint_is_sealed_lem l =
    elim (Bool-cases (str_eq l.research_generation "V1")) [
      | inl v1 ↦ inr (rw v1 refl)
      | inr other ↦ inl (rw other refl)
    ]
