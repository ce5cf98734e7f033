-- ===== src/Forward/Failure/Leaves.antt =====
-- The forward experiment after a final failure of `commit_operational_failure`: still active, and
-- its links and incidents belong to recorded windows, so that missed windows may be recorded next.
use text.Mathlib.Text.{◌==◌ as str_eq}
use text.Mathlib.TextEquality.{eq_iff}
use hermes_crypto_lab.Base.{
  ℕ, ◌≡◌, ◌≢◌, refl, sym, ap, String, Option, none, some, false, List, ok, Bool-cases, inl, inr,
  >>=-eq-ok, ok_eq,
}
use hermes_crypto_lab.Schedule.Window.{IsSchedule}
use hermes_crypto_lab.Forward.Tables.{ForwardTables, ForwardIncident, active_experiment_id, text_of}
use hermes_crypto_lab.Float.{FloatOps}
use hermes_crypto_lab.Schedule.{scheduled_key}
use hermes_crypto_lab.State.{◌>>=◌, returned, lift, read}
use hermes_crypto_lab.Store.{
  Store, ErrorOutcome, kill_switch_activated, data_quality_failure, reconciliation_failure,
  execution_error, release_provenance_failure, schedule_exists, insert_run,
}
use hermes_crypto_lab.PaperRun.{Setting}
use hermes_crypto_lab.Forward.{World, on_forward}
use hermes_crypto_lab.Forward.Record.Claimed.{
  record_forward_window-ClaimedAt, record_forward_incident-windows,
}
use hermes_crypto_lab.Forward.Claims.{holder_at}
use hermes_crypto_lab.Forward.Failure.{
  Failure, forward_row, incident_row, is_retryable, failure_row, commit_failure,
  commit_operational_failure,
}
use hermes_crypto_lab.Forward.Failure.Closes.{target-found, write_run-after_run}
use hermes_crypto_lab.Forward.Record.{
  incident_id_exists, link_incident, incident_unless, incident_for, record_forward_incident,
  record_forward_incident_once,
}
use hermes_crypto_lab.Forward.Steps.{two_attempts-once}
use hermes_crypto_lab.Forward.Missed.Filed.{IsFiled}
use hermes_crypto_lab.Forward.Failure.Filed.{
  record_forward_window-IsFiled, record_forward_incident-IsFiled,
}

link_incident-experiments :
    (experiment : String) (found : Option String) (is : List ForwardIncident) (t t' : ForwardTables)
    → link_incident experiment found is t ≡ ok t'
    → t'.experiments ≡ t.experiments
link_incident-experiments experiment none is t t' e = absurd (cc e)
link_incident-experiments experiment (some id) is t t' e =
    sym (ap (λ (u : ForwardTables). u.experiments) (ok_eq _ _ e))

record_forward_incident-experiments :
    (n : ForwardIncident) (t t' : ForwardTables)
    → record_forward_incident n t ≡ ok t'
    → t'.experiments ≡ t.experiments
unfolding record_forward_incident record_forward_incident_once
record_forward_incident-experiments n t t' e =
    let (experiment, _, done) =
      >>=-eq-ok (active_experiment_id t) _
        (two_attempts-once (record_forward_incident_once n) t t' e) in
    unless experiment (incident_for n.incident_type n.scheduled_for t.incidents) done
  where
    unless :
        (experiment : String) (found : Option String)
        → incident_unless experiment n found t ≡ ok t'
        → t'.experiments ≡ t.experiments
    unless experiment (some id) done =
        link_incident-experiments experiment (some id) t.incidents t t' done
    unless experiment none done = link_incident-experiments experiment _ _ t t' done

final-other_type : (e : ErrorOutcome) → str_eq (text_of e) "MISSED_SCHEDULE" ≡ false
final-other_type kill_switch_activated = refl
final-other_type data_quality_failure = refl
final-other_type reconciliation_failure = refl
final-other_type execution_error = refl
final-other_type release_provenance_failure = refl

module _ (fl : FloatOps) (setting : Setting fl) (f : Failure) (valid : IsSchedule setting.schedule)
    (new_id : ℕ → String) where
  open fl use {F}

  -- After a final failure in a free window the experiment is still active, and links and incidents
  -- belong to recorded windows as before.
  pub commit_operational_failure-IsFiled :
      (w : World F) (key : ℕ) (experiment : String) (s : Store)
      → scheduled_key setting.schedule f.now ≡ ok (some key)
      → is_retryable f.outcome f.retryable_admission_failure ≡ false
      → schedule_exists key w.system.store ≡ false
      → holder_at key w.forward ≡ none
      → insert_run setting.matches (failure_row f (some key) none) w.system.store ≡ ok s
      → active_experiment_id w.forward ≡ ok experiment
      → incident_id_exists f.incident_id w.forward.incidents ≡ false
      → ((k : ℕ) → f.incident_id ≢ new_id k)
      → IsFiled setting.schedule valid new_id w.forward
      → let failed = (commit_operational_failure fl setting f w).0 in
        (active_experiment_id failed.forward ≡ ok experiment)
        × IsFiled setting.schedule valid new_id failed.forward
  unfolding commit_operational_failure commit_failure on_forward ◌>>=◌ read lift returned
  commit_operational_failure-IsFiled w key experiment s window final free unheld admitted one new
        other filed =
      let (target, on_target) = target-found fl setting f valid key window in
      let n = forward_row fl setting f key target in
      let (t1, first, _, same_experiments, same_incidents) =
        record_forward_window-ClaimedAt n f.run_id experiment w.forward refl one unheld in
      let (t2, noted, same) =
        record_forward_incident-windows (incident_row fl setting f (some target)) experiment t1
          (rw same_experiments one) (rw same_incidents new) in
      let filed1 =
        record_forward_window-IsFiled setting.schedule valid new_id n w.forward t1 first filed in
      let filed2 =
        record_forward_incident-IsFiled setting.schedule valid new_id
          (incident_row fl setting f none) target t1 t2 noted (rw same_incidents new)
          (final-other_type f.outcome) other_id filed1 in
      let kept =
        record_forward_incident-experiments (incident_row fl setting f (some target)) t1 t2 noted in
      rw
        (
          window,
          final,
          free,
          write_run-after_run fl setting f valid key w s admitted,
          on_target,
          first,
          noted,
        )
        (rw (kept, same_experiments) one, filed2)
    where
      other_id : (k : ℕ) → str_eq f.incident_id (new_id k) ≡ false
      other_id k = elim (Bool-cases (str_eq f.incident_id (new_id k))) [
        | inl same ↦ absurd (other k ((eq_iff f.incident_id (new_id k)).0 same))
        | inr differs ↦ differs
      ]
