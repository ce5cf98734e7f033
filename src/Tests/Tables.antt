-- ===== src/Tests/Tables.antt =====
-- The store's tables on a small example.
use hermes_crypto_lab.Base.{
  ℕ, suc, ◌+◌, ◌*◌, ◌/◌, ◌^◌, ◌≡◌, refl, none, some, true, false, [], ◌∷◌, map, List, String, ok,
}
use hermes_crypto_lab.Base.Int.{ℤ, pos, negsuc}
use hermes_crypto_lab.Decimal.{Decimal, finite, special}
use hermes_crypto_lab.Float.{FloatOps, floating}
use hermes_crypto_lab.Broker.Execute.{ExecutionOutcome}
use hermes_crypto_lab.Store.{
  Run, Store, running, executed, active, run_exists, key_exists, mem_text, schedule_exists,
  recover_abandoned_runs, outcome_of,
}
use hermes_crypto_lab.Store.Tolerance.{
  Json, Entries, no_entries, entry, legacy_keys, lookup, keys_of, legacy_result, as_object,
  governed_result, bounded, resolve_persisted_quantity_tolerance,
}
use hermes_crypto_lab.Store.Tolerance.Authority.{
  RestsOn, resolve_persisted_quantity_tolerance-RestsOn,
}
use hermes_crypto_lab.Tests.Fixed.{fixed}
use hermes_crypto_lab.Store.Recovery.{resolved, recover_abandoned_runs-map}
use hermes_crypto_lab.Store.Steps.{StoreStep, Reach}
use hermes_crypto_lab.Store.Keys.{IsKeyed, Reach-IsKeyed}
use hermes_crypto_lab.Store.Retry.{schedule_exists-recover_abandoned_runs}
use hermes_crypto_lab.Store.Outcomes.{Reach-outcome_of}

abbrev interrupted : Run
interrupted = record {
  run_id = "r2";
  started_at = 20;
  completed_at = none;
  status = running;
  is_dry_run = false;
  official_scheduled = true;
  schedule_key = some 2;
  attempted_schedule_key = none;
  message = none;
  reconciliation = none;
}

abbrev ended : Run
ended = record {
  run_id = "r1";
  started_at = 10;
  completed_at = some 11;
  status = executed;
  is_dry_run = false;
  official_scheduled = true;
  schedule_key = some 1;
  attempted_schedule_key = none;
  message = none;
  reconciliation = none;
}

-- A run that ended, and one that was interrupted before it left a snapshot.
abbrev tables : Store
tables = record {
  account_status = active;
  runs = interrupted ∷ ended ∷ [];
  incidents = [];
  outcomes = ("r1", ExecutionOutcome.full_execution) ∷ [];
  equity_snapshots = "r1" ∷ [];
  release_provenance = "r1" ∷ "r2" ∷ [];
}

tables-IsKeyed : IsKeyed tables
unfolding run_exists key_exists
tables-IsKeyed = record { distinct_runs = (refl, (refl, tt)); distinct_keys = (refl, (refl, tt)) }

recover_abandoned_runs-map_example :
    let after : Store = record tables { runs = map (resolved 30 ("r1" ∷ [])) tables.runs } in
    ((recover_abandoned_runs 30 tables).0 ≡ after) × (recover_abandoned_runs 40 after ≡ (after, 0))
recover_abandoned_runs-map_example =
    recover_abandoned_runs-map 30 40 tables tables-IsKeyed.distinct_runs

recovery : Reach tables (recover_abandoned_runs 30 tables).0
recovery = Reach.next Reach.here (StoreStep.recover 30 refl)

Reach-IsKeyed_example : IsKeyed (recover_abandoned_runs 30 tables).0
Reach-IsKeyed_example =
    Reach-IsKeyed tables (recover_abandoned_runs 30 tables).0 recovery tables-IsKeyed

no_snapshot : mem_text "r2" ("r1" ∷ []) ≡ false
unfolding mem_text
no_snapshot = refl

schedule_exists-recover_abandoned_runs_example :
    schedule_exists 2 (recover_abandoned_runs 30 tables).0 ≡ mem_text "r2" ("r1" ∷ [])
schedule_exists-recover_abandoned_runs_example =
    schedule_exists-recover_abandoned_runs 30 2 tables [] (ended ∷ []) interrupted tables-IsKeyed
      refl refl refl

recorded : outcome_of "r1" tables.outcomes ≡ some ExecutionOutcome.full_execution
unfolding outcome_of
recorded = refl

Reach-outcome_of_example :
    outcome_of "r1" (recover_abandoned_runs 30 tables).0.outcomes
    ≡ some ExecutionOutcome.full_execution
Reach-outcome_of_example =
    Reach-outcome_of tables (recover_abandoned_runs 30 tables).0 "r1"
      ExecutionOutcome.full_execution recovery recorded

-- Ten decimals in place of four, which tell 1e-7 from zero.
abbrev fine_units : Decimal → ℕ
fine_units (finite s c (pos n)) = c * 10 ^ (n + 10)
fine_units (finite s c (negsuc n)) = c * 10 ^ 10 / 10 ^ suc n
fine_units special = 0

abbrev fine : FloatOps
fine = record {
  F = ℤ;
  isfinite = fixed.isfinite;
  lt = fixed.lt;
  le = fixed.le;
  eq = fixed.eq;
  plus = fixed.plus;
  minus = fixed.minus;
  times = fixed.times;
  over = fixed.over;
  negate = fixed.negate;
  absolute = fixed.absolute;
  to_decimal = fixed.to_decimal;
  of_decimal = λ d. pos (fine_units d);
}

-- A governed specification with a tolerance of 5e-8, and what is read of it.
abbrev economic_v2 : Json ℤ
economic_v2 = Json.object (
    entry "version" (Json.string "economic-spec-v2") (
      entry "execution"
        (Json.object (entry "quantity_tolerance" (Json.number (floating (pos 500))) no_entries))
        no_entries))

abbrev governed_specification : Json ℤ
governed_specification = Json.object (
    entry "quantity_tolerance_authority_version" (Json.string "quantity-tolerance-v1") (
      entry "economic_spec_v2" economic_v2
        (entry "economic_spec_v2_sha256" (Json.string "pinned") no_entries)))

resolves :
    resolve_persisted_quantity_tolerance fine
      (λ s. none)
      (λ j. "pinned")
      "pinned"
      governed_specification
      (pos 1)
    ≡ ok (pos 500, "quantity-tolerance-v1", true)
unfolding resolve_persisted_quantity_tolerance governed_result bounded lookup
resolves = refl

-- A specification of the first version, and the tolerance that it leaves.
abbrev entries_of : List String → Entries ℤ
entries_of [] = no_entries
entries_of (k ∷ ks) = entry k Json.null (entries_of ks)

resolves_legacy :
    resolve_persisted_quantity_tolerance fixed
      (λ s. none)
      (λ j. "")
      "pinned"
      (Json.object (entries_of legacy_keys))
      (pos 1)
    ≡ ok (pos 1, "legacy-forward-spec-v1", false)
unfolding resolve_persisted_quantity_tolerance legacy_result lookup keys_of
resolves_legacy = refl

resolve_persisted_quantity_tolerance-RestsOn_example :
    (spec : Entries ℤ) × (as_object (some governed_specification) ≡ some spec)
    × RestsOn fine
        (λ s. none)
        (λ j. "pinned")
        "pinned"
        spec
        (pos 1)
        (pos 500, "quantity-tolerance-v1", true)
resolve_persisted_quantity_tolerance-RestsOn_example =
    resolve_persisted_quantity_tolerance-RestsOn fine (λ s. none) (λ j. "pinned") "pinned"
      governed_specification (pos 1) (pos 500) "quantity-tolerance-v1" true resolves
