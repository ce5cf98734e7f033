-- ===== src/Tests/Failed.antt =====
-- A weekly call after a failed execution, on a small example.
use text.Mathlib.Text.{◌==◌ as str_eq}
use hermes_crypto_lab.Base.{◌*◌, ◌≡◌, ◌≢◌, ◌∙◌, refl, sym, ap, none, some, ok, ℕ}
use mathlib.Core.Path.{subst}
use hermes_crypto_lab.Base.Int.{ℤ}
use hermes_crypto_lab.Time.{minute_ns}
use hermes_crypto_lab.Store.{execution_error}
use hermes_crypto_lab.Store.Steps.{inserted}
use hermes_crypto_lab.Forward.{World}
use hermes_crypto_lab.Forward.Tables.{only}
use hermes_crypto_lab.Forward.Rows.{Grows}
use hermes_crypto_lab.Forward.Failure.{commit_operational_failure, failure_result, failure_row}
use hermes_crypto_lab.RunPaper.{exit_code, weekly_call}
use hermes_crypto_lab.RunPaper.Refused.{weekly_call-after_failure}
use hermes_crypto_lab.Tests.Fixed.{fixed}
use hermes_crypto_lab.Tests.Runs.{setting, start}
use hermes_crypto_lab.Tests.Windows.{
  world, setting-IsSchedule, letters, letters_distinct, number_of, number_of-letters, one_active,
  failure, in_window, no_window, free_key, admitted, free_id, no_rows-IsFiled,
}
use hermes_crypto_lab.Tests.Weekly.{in_time}

abbrev failed : World ℤ
failed = (commit_operational_failure fixed setting (failure execution_error) world).0

-- No identifier of the call is that of the incident.
letters-other : (k : ℕ) → letters k ≢ "i1"
unfolding letters number_of
letters-other k same =
    let two : k ≡ 2 = sym (number_of-letters k) ∙ ap number_of same in
    let found : letters 2 ≡ "i1" = subst (λ n. letters n ≡ "i1") two same in
    absurd (cc (ap (λ s. str_eq s "i1") found))

weekly_call-after_failure_example :
    (w' : World ℤ) × ((commit_operational_failure fixed setting (failure execution_error) world).1
      ≡ ok (failure_result fixed setting (failure execution_error)))
    × (weekly_call fixed setting in_time failed ≡ (w', ok (exit_code 2)))
    × (w'.system ≡ failed.system)
    × Grows failed.forward w'.forward
weekly_call-after_failure_example =
    weekly_call-after_failure fixed setting (failure execution_error) in_time setting-IsSchedule
      world (5 * minute_ns) "e1"
      (inserted (failure_row (failure execution_error) (some (5 * minute_ns)) none) start.store)
      in_window refl free_key no_window admitted (ap only one_active) free_id
      (λ k same. letters-other k (sym same)) no_rows-IsFiled letters_distinct refl in_window
