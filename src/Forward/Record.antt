-- ===== src/Forward/Record.antt =====
-- `record_forward_window` and `record_forward_incident` of src/paper_store.py. INSERT OR IGNORE
-- leaves the table as it is when a key is taken.
pub mod Claimed
use text.Mathlib.Text.{◌==◌ as str_eq}
use hermes_crypto_lab.Base.{
  ℕ, String, Option, none, some, Bool, true, false, ◌||◌, ◌&&◌, List, [], ◌∷◌, map, ◌==◌,
  if◌then◌else◌, is_some, Result, ok, err, runtime_error, constraint_violation, ◌>>=◌,
}
use hermes_crypto_lab.Store.{same_key}
use hermes_crypto_lab.Forward.Tables.{
  Window, ForwardIncident, ForwardTables, active_experiment_id, window_exists, has_window_link,
  has_incident_link,
}

-- `for attempt in range(2)`: a violated constraint is tried again once.
abbrev pub unless_violated : Result ForwardTables → Result ForwardTables → Result ForwardTables
unless_violated (err constraint_violation) again = again
unless_violated result again = result

abbrev pub two_attempts :
    (ForwardTables → Result ForwardTables) → ForwardTables → Result ForwardTables
two_attempts once t = unless_violated (once t) (once t)

abbrev pub ignore_window : Window → List Window → List Window
ignore_window n ws = if window_exists n.schedule_key ws then ws else n ∷ ws

abbrev pub ignore_window_link : String → ℕ → List (String × ℕ) → List (String × ℕ)
ignore_window_link e k links = if has_window_link e k links then links else (e, k) ∷ links

-- `run_id IS NULL OR run_id=?`
abbrev pub is_claimable : Option String → String → Bool
is_claimable none id = true
is_claimable (some r) id = str_eq r id

unfoldable pub claim : ℕ → String → String → Window → Window
claim k id outcome w =
    if w.schedule_key == k && is_claimable w.run_id id
    then record w { run_id = some id; outcome = outcome }
    else w

-- `if run_id is not None:`
abbrev pub claim_by : Option String → Window → List Window → List Window
claim_by none n ws = ws
claim_by (some id) n ws = map (claim n.schedule_key id n.outcome) ws

-- `_record_forward_window_once`; the argument has the values of a new row.
unfoldable pub record_forward_window_once : Window → ForwardTables → Result ForwardTables
record_forward_window_once n t = do
  experiment ← active_experiment_id t
  ok (record t {
    windows = claim_by n.run_id n (ignore_window n t.windows);
    experiment_windows = ignore_window_link experiment n.schedule_key t.experiment_windows;
  })

unfoldable pub record_forward_window : Window → ForwardTables → Result ForwardTables
record_forward_window n t = two_attempts (record_forward_window_once n) t

-- The row of a type and an instant that is first by the time of its creation and its identifier.
-- The UNIQUE columns leave at most one.
unfoldable pub incident_at : String → ℕ → List ForwardIncident → Option String
incident_at type at [] = none
incident_at type at (i ∷ is) =
    let rest = incident_at type at is in
    if str_eq i.incident_type type && same_key i.scheduled_for at then some i.incident_id else rest

abbrev pub incident_for : String → Option ℕ → List ForwardIncident → Option String
incident_for type none is = none
incident_for type (some at) is = incident_at type at is

-- The keys that an INSERT may violate; NULLs never do.
unfoldable pub incident_id_exists : String → List ForwardIncident → Bool
incident_id_exists id [] = false
incident_id_exists id (i ∷ is) = str_eq i.incident_id id || incident_id_exists id is

abbrev pub incident_conflict : ForwardIncident → List ForwardIncident → Bool
incident_conflict n is =
    incident_id_exists n.incident_id is || is_some (incident_for n.incident_type n.scheduled_for is)

abbrev pub ignore_incident : ForwardIncident → List ForwardIncident → List ForwardIncident
ignore_incident n is = if incident_conflict n is then is else n ∷ is

-- Without an instant it is the proposed identifier, with one what is found now.
abbrev pub written_at : Option ℕ → ForwardIncident → List ForwardIncident → Option String
written_at none n is = some n.incident_id
written_at (some at) n is = incident_at n.incident_type at is

abbrev pub ignore_incident_link : String → String → List (String × String) → List (String × String)
ignore_incident_link e i links = if has_incident_link e i links then links else (e, i) ∷ links

abbrev pub link_incident :
    String → Option String → List ForwardIncident → ForwardTables → Result ForwardTables
link_incident experiment none is t =
    err (runtime_error "Incident persistence did not produce an incident row")
link_incident experiment (some id) is t = ok (record t {
  incidents = is;
  experiment_incidents = ignore_incident_link experiment id t.experiment_incidents;
})

abbrev pub incident_unless :
    String → ForwardIncident → Option String → ForwardTables → Result ForwardTables
incident_unless experiment n (some id) t = link_incident experiment (some id) t.incidents t
incident_unless experiment n none t =
    let is = ignore_incident n t.incidents in
    link_incident experiment (written_at n.scheduled_for n is) is t

-- `_record_forward_incident_once`
unfoldable pub record_forward_incident_once : ForwardIncident → ForwardTables → Result ForwardTables
record_forward_incident_once n t = do
  experiment ← active_experiment_id t
  incident_unless experiment n (incident_for n.incident_type n.scheduled_for t.incidents) t

unfoldable pub record_forward_incident : ForwardIncident → ForwardTables → Result ForwardTables
record_forward_incident n t = two_attempts (record_forward_incident_once n) t
