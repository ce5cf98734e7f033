-- ===== src/Forward/Steps.antt =====
-- The transactions of src/paper_store.py and src/forward_operations.py on the tables of windows and
-- incidents as steps.
use hermes_crypto_lab.Base.{
  ℕ, ◌≡◌, String, Result, ok, err, value_error, runtime_error, permission_error, decimal_overflow,
  constraint_violation,
}
use hermes_crypto_lab.Forward.Tables.{ForwardTables, Window, ForwardIncident}
use hermes_crypto_lab.Forward.Record.{
  two_attempts, unless_violated, record_forward_window, record_forward_incident,
}
use hermes_crypto_lab.Forward.Missed.{file_committed, file_missed}

pub data ForwardStep (t t' : ForwardTables) : Type 0 where
  window : (n : Window) → record_forward_window n t ≡ ok t' → ForwardStep t t'
  incident : (n : ForwardIncident) → record_forward_incident n t ≡ ok t' → ForwardStep t t'
  committed : (e : String) (n : Window) → file_committed e n t ≡ ok t' → ForwardStep t t'
  missed :
      (e id : String) (key target now : ℕ)
      → file_missed e id key target now t ≡ ok t'
      → ForwardStep t t'

pub data ForwardReach (t : ForwardTables) : ForwardTables → Type 0 where
  here : ForwardReach t t
  next : {u v : ForwardTables} → ForwardReach t u → ForwardStep u v → ForwardReach t v

pub ForwardReach-trans :
    (t u v : ForwardTables) → ForwardReach t u → ForwardReach u v → ForwardReach t v
ForwardReach-trans t u _ before here = before
ForwardReach-trans t u v before (next {u = m} after step) =
    next (ForwardReach-trans t u m before after) step

-- The second attempt meets what the first has met.
pub two_attempts-once :
    (once : ForwardTables → Result ForwardTables) (t t' : ForwardTables)
    → two_attempts once t ≡ ok t'
    → once t ≡ ok t'
two_attempts-once once t t' e = by_result (once t) e
  where
    by_result : (r : Result ForwardTables) → unless_violated r r ≡ ok t' → r ≡ ok t'
    by_result (ok u) e = e
    by_result (err constraint_violation) e = e
    by_result (err (value_error m)) e = e
    by_result (err (runtime_error m)) e = e
    by_result (err (permission_error m)) e = e
    by_result (err decimal_overflow) e = e
