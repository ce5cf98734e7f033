-- ===== src/PaperRun/Branches.antt =====
-- The branches of `PaperTradingSystem.run`, as the cases of a predicate on its end.
use hermes_crypto_lab.Base.{
  ℕ, ◌≡◌, refl, String, Option, none, some, Bool, true, false, ◌&&◌, if◌then◌else◌, is_none, Result,
  ok, err, Bool-cases, inl, inr, Exn,
}
use hermes_crypto_lab.Float.{FloatOps}
use hermes_crypto_lab.Schedule.{scheduled_key}
use hermes_crypto_lab.Store.{ReconciliationResult, is_active, schedule_exists}
use hermes_crypto_lab.PaperRun.{
  plain_result, duplicate_message, Request, Setting, PaperRunResult, is_official, attempted_key,
  provenance_failure, account_halted, corrupted, data_halted, outside_window, dry_run_only, trade,
  in_window, scheduled, validated, admitted, run,
}
use hermes_crypto_lab.PaperRun.Act.{System, Action, ◌>>=◌, returned, lift, read}
use hermes_crypto_lab.PaperRun.Trade.{duplicate_schedule}

-- What a run has found when it comes to trade in the window `key`.
pub record IsTradable (fl : FloatOps) (setting : Setting fl) (req : Request) (s : System fl.F)
    (key : ℕ) : Type 0 where
  pub proven : (req.require_release_provenance && is_none req.release_provenance) ≡ false
  pub active : is_active s.store.account_status ≡ true
  pub reconciled : (setting.reconcile s).valid ≡ true
  pub validated : setting.validate_snapshot req.now ≡ none
  pub in_window : scheduled_key setting.schedule req.now ≡ ok (some key)
  pub paper : req.is_dry_run ≡ false
  pub fresh : schedule_exists key s.store ≡ false

-- How a run may end, as the cases of a predicate on what it leaves and answers.
pub record Leaves (fl : FloatOps) (setting : Setting fl) (req : Request) (s : System fl.F)
    (P : System fl.F × Result (PaperRunResult fl.F) → Type 0) : Type 0 where
  pub raised : (e : Exn) → P (s, err e)
  pub unproven : (k : Option ℕ) → P (provenance_failure fl setting req k s)
  pub halted : (k : Option ℕ) → P (account_halted fl setting req k s)
  pub corrupt : (k : Option ℕ) (r : ReconciliationResult) → P (corrupted fl setting req k r s)
  pub bad_data :
      (k : Option ℕ) (r : ReconciliationResult) (error : String)
      → P (data_halted fl setting req k r error s)
  pub outside : P (outside_window fl setting req s)
  pub dry : P (dry_run_only fl setting req s)
  pub duplicate :
      (key : ℕ)
      → P (
        s,
        ok (plain_result fl setting req duplicate_schedule (duplicate_message fl setting key)),
      )
  pub trades : (key : ℕ) → IsTradable fl setting req s key → P (trade fl setting req key s)

module _ (fl : FloatOps) (setting : Setting fl) (req : Request) (s : System fl.F)
    (P : System fl.F × Result (PaperRunResult fl.F) → Type 0)
    (leaves : Leaves fl setting req s P) where
  open fl use {F}

  -- Two branches under a test.
  either_way :
      (b : Bool) (x y : Action F (PaperRunResult F))
      → (b ≡ true → P (x s))
      → (b ≡ false → P (y s))
      → P ((if b then x else y) s)
  either_way true x y p q = p refl
  either_way false x y p q = q refl

  in_window-branch :
      (key : ℕ)
      → (req.is_dry_run ≡ false
          → schedule_exists key s.store ≡ false
          → IsTradable fl setting req s key)
      → P (in_window fl setting req key s)
  unfolding ◌>>=◌ read returned
  in_window-branch key found =
      either_way req.is_dry_run _ _ (λ dry. leaves.dry)
        (λ paper.
          either_way (schedule_exists key s.store) _ _ (λ exists. leaves.duplicate key)
            (λ fresh. leaves.trades key (found paper fresh)))

  validated-branch :
      (attempted : Option ℕ) (r : ReconciliationResult) (error : Option String)
      → setting.validate_snapshot req.now ≡ error
      → ((key : ℕ)
          → setting.validate_snapshot req.now ≡ none
          → scheduled_key setting.schedule req.now ≡ ok (some key)
          → req.is_dry_run ≡ false
          → schedule_exists key s.store ≡ false
          → IsTradable fl setting req s key)
      → P (validated fl setting req attempted r error s)
  unfolding ◌>>=◌ lift
  validated-branch attempted r (some error) e found = leaves.bad_data attempted r error
  validated-branch attempted r none e found =
      by_key (scheduled_key setting.schedule req.now) (λ key. found key e)
    where
      by_key :
          (k : Result (Option ℕ))
          → ((key : ℕ)
              → k ≡ ok (some key)
              → req.is_dry_run ≡ false
              → schedule_exists key s.store ≡ false
              → IsTradable fl setting req s key)
          → P ((lift k >>= (λ key. scheduled fl setting req key)) s)
      by_key (err e) h = leaves.raised e
      by_key (ok none) h = leaves.outside
      by_key (ok (some key)) h = in_window-branch key (h key refl)

  admitted-branch :
      (attempted : Option ℕ)
      → (req.require_release_provenance && is_none req.release_provenance) ≡ false
      → P (admitted fl setting req attempted s)
  unfolding ◌>>=◌ read
  admitted-branch attempted proven =
      either_way (is_active s.store.account_status) _ _
        (λ active.
          either_way (setting.reconcile s).valid _ _
            (λ clean.
              validated-branch attempted (setting.reconcile s) (setting.validate_snapshot req.now)
                refl
                (λ key valid inside paper fresh. record {
                  proven = proven;
                  active = active;
                  reconciled = clean;
                  validated = valid;
                  in_window = inside;
                  paper = paper;
                  fresh = fresh;
                }))
            (λ invalid. leaves.corrupt attempted (setting.reconcile s)))
        (λ halted. leaves.halted attempted)

  attempted-branch :
      (k : Option ℕ)
      → P (
          (if req.require_release_provenance && is_none req.release_provenance
              then provenance_failure fl setting req k
              else admitted fl setting req k)
            s)
  attempted-branch k =
      either_way (req.require_release_provenance && is_none req.release_provenance) _ _
        (λ missing. leaves.unproven k) (admitted-branch k)

  pub run-branch : P (run fl setting req s)
  unfolding run ◌>>=◌ attempted_key lift returned
  run-branch = elim (Bool-cases (is_official req)) [
    | inl official ↦ rw official (by_result (scheduled_key setting.schedule req.now))
    | inr manual ↦ rw manual (attempted-branch none)
  ]
    where
      by_result :
          (k : Result (Option ℕ))
          → P (
              (lift k >>= (λ attempted.
                  if req.require_release_provenance && is_none req.release_provenance
                  then provenance_failure fl setting req attempted
                  else admitted fl setting req attempted))
                s)
      by_result (err e) = leaves.raised e
      by_result (ok k) = attempted-branch k
