-- ===== src/Tests/Lifecycle.antt =====
-- The research lifecycle on concrete contracts.
use hermes_crypto_lab.Base.{◌≡◌, refl, true, false, ok}
use hermes_crypto_lab.Base.Int.{pos}
use hermes_crypto_lab.ResearchLifecycle.{
  integer, boolean, json_text, Payload, object, ResearchLifecycle, require_text, require_boolean,
  open_v2, by_generation, load_payload, load_research_lifecycle,
  assert_candidate_selection_permitted,
}
use hermes_crypto_lab.ResearchLifecycle.Selection.{IsOpen, selection_permitted-IsOpen}

abbrev second_payload : Payload
second_payload = record {
  lifecycle_schema_version = integer (pos 1);
  research_generation = json_text "V2";
  selection_status = json_text "OPEN";
  candidate_reselection_allowed = boolean true;
  final_test_opened = boolean false;
  research_specification_id = json_text "spec-2";
  untouched_oos_required = boolean true;
}

abbrev second_generation : ResearchLifecycle
second_generation = record {
  research_generation = "V2";
  selection_status = "OPEN";
  candidate_reselection_allowed = true;
  final_test_opened = false;
  research_specification_id = json_text "spec-2";
  untouched_oos_required = boolean true;
}

loaded : load_research_lifecycle (object second_payload) ≡ ok second_generation
unfolding load_research_lifecycle load_payload require_text require_boolean by_generation open_v2
loaded = refl

permitted : assert_candidate_selection_permitted second_generation ≡ ok tt
unfolding assert_candidate_selection_permitted
permitted = refl

selection_permitted-IsOpen_example :
    IsOpen second_generation × (second_generation.candidate_reselection_allowed ≡ true)
selection_permitted-IsOpen_example =
    selection_permitted-IsOpen (object second_payload) second_generation loaded permitted
