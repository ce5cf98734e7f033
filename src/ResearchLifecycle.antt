-- ===== src/ResearchLifecycle.antt =====
-- src/research_lifecycle.py: the contract that is loaded from a file, and the two tests that open or
-- close candidate selection. Reading and parsing the file is the interpreter's; what it gives is the
-- argument.
pub mod Selection
use text.Mathlib.Text.{◌==◌ as str_eq}
use hermes_crypto_lab.Base.{
  ℕ, String, Option, none, some, Bool, true, false, not, ◌||◌, ◌&&◌, Result, ok, err, value_error,
  permission_error, raise_if, ◌>>◌, ◌>>=◌, if◌then◌else◌,
}
use hermes_crypto_lab.Base.Int.{ℤ, pos, leb_ℤ}

-- A value of JSON; `null` is also what `get` answers for a missing key.
pub data Json : Type 0 where
  null : Json
  json_text : String → Json
  integer : ℤ → Json
  boolean : Bool → Json
  other_json : Json

pub record Payload : Type 0 where
  pub lifecycle_schema_version : Json
  pub research_generation : Json
  pub selection_status : Json
  pub candidate_reselection_allowed : Json
  pub final_test_opened : Json
  pub research_specification_id : Json
  pub untouched_oos_required : Json

-- What the file holds: nothing that can be read as JSON, JSON that is no object, or an object.
pub data ContractFile : Type 0 where
  unavailable no_object : ContractFile
  object : Payload → ContractFile

pub record ResearchLifecycle : Type 0 where
  pub research_generation : String
  pub selection_status : String
  pub candidate_reselection_allowed : Bool
  pub final_test_opened : Bool
  pub research_specification_id : Json
  pub untouched_oos_required : Json

-- `_require_exact(payload, key, str)` and `_require_exact(payload, key, bool)`
unfoldable pub require_text : Json → Result String
require_text (json_text s) = ok s
require_text _ = err (value_error "Research lifecycle field has an invalid type")

unfoldable pub require_boolean : Json → Result Bool
require_boolean (boolean b) = ok b
require_boolean _ = err (value_error "Research lifecycle field has an invalid type")

-- `type(version) is not int or version != 1`
abbrev pub is_version_one : Json → Bool
is_version_one (integer n) = leb_ℤ n (pos 1) && leb_ℤ (pos 1) n
is_version_one _ = false

-- `type(id) is not str or not id`
abbrev pub no_specification : Json → Bool
no_specification (json_text s) = str_eq s ""
no_specification _ = true

-- `value is True`
abbrev pub is_json_true : Json → Bool
is_json_true (boolean b) = b
is_json_true _ = false

unfoldable pub sealed_v1 : ResearchLifecycle → Result ResearchLifecycle
sealed_v1 l = do
  raise_if
      (not (str_eq l.selection_status "SEALED")
        || l.candidate_reselection_allowed
        || not l.final_test_opened)
      (value_error "V1 research lifecycle must remain sealed")
  ok l

unfoldable pub open_v2 : ResearchLifecycle → Result ResearchLifecycle
open_v2 l = do
  raise_if
      (not (str_eq l.selection_status "OPEN")
        || not l.candidate_reselection_allowed
        || l.final_test_opened
        || no_specification l.research_specification_id
        || not (is_json_true l.untouched_oos_required))
      (value_error "V2 research lifecycle requires a new specification and untouched OOS")
  ok l

unfoldable pub by_generation : ResearchLifecycle → Result ResearchLifecycle
by_generation l =
    if str_eq l.research_generation "V1"
    then sealed_v1 l
    else if str_eq l.research_generation "V2"
    then open_v2 l
    else err (value_error "Unknown research generation")

unfoldable pub load_payload : Payload → Result ResearchLifecycle
load_payload p = do
  raise_if (not (is_version_one p.lifecycle_schema_version))
      (value_error "Unknown research lifecycle schema version")
  generation ← require_text p.research_generation
  status ← require_text p.selection_status
  reselection ← require_boolean p.candidate_reselection_allowed
  opened ← require_boolean p.final_test_opened
  by_generation (record {
    research_generation = generation;
    selection_status = status;
    candidate_reselection_allowed = reselection;
    final_test_opened = opened;
    research_specification_id = p.research_specification_id;
    untouched_oos_required = p.untouched_oos_required;
  })

-- `load_research_lifecycle`
unfoldable pub load_research_lifecycle : ContractFile → Result ResearchLifecycle
load_research_lifecycle unavailable =
    err (value_error "Research lifecycle contract is unavailable or malformed")
load_research_lifecycle no_object =
    err (value_error "Research lifecycle contract must be an object")
load_research_lifecycle (object p) = load_payload p

unfoldable pub assert_candidate_selection_permitted : ResearchLifecycle → Result (Unit {0})
assert_candidate_selection_permitted l = do
  raise_if (str_eq l.research_generation "V1") (permission_error "V1 research is sealed")
  raise_if (not (str_eq l.research_generation "V2") || not l.candidate_reselection_allowed)
      (permission_error "Research generation is not permitted to select candidates")

unfoldable pub assert_current_v1_entrypoint_is_sealed : ResearchLifecycle → Result (Unit {0})
assert_current_v1_entrypoint_is_sealed l = do
  raise_if (not (str_eq l.research_generation "V1"))
      (permission_error "The current V1 entrypoint cannot execute a future research generation")
  assert_candidate_selection_permitted l
