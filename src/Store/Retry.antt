-- ===== src/Store/Retry.antt =====
-- What `recover_abandoned_runs` means for the next attempt in a window: `schedule_exists` after
-- it.
use hermes_crypto_lab.Base.{
  ℕ, ◌≡◌, refl, String, Option, none, some, Bool, true, false, List, [], ◌∷◌, ◌++◌, map, ◌||◌, ◌==◌,
  Bool-cases, inl, inr, ==_iff,
}
use hermes_crypto_lab.Store.{
  Run, Store, is_running, mem_text, same_key, key_exists, key_conflict, schedule_exists, recovered,
  recover_abandoned_runs,
}
use hermes_crypto_lab.Store.Recovery.{resolved, recover_abandoned_runs-map}
use hermes_crypto_lab.Store.Keys.{
  AreKeysDistinct, IsKeyed, KeepsColumns-resolved, Shrinks-map, same_key-shrinks,
}

or_true : (b : Bool) → (b || true) ≡ true
or_true true = refl
or_true false = refl

key_exists-after :
    (k : ℕ) (before after : List Run) (r : Run)
    → r.schedule_key ≡ some k
    → key_exists k (before ++ (r ∷ after)) ≡ true
unfolding key_exists
key_exists-after k [] after r h = rw (h, (==_iff k k).1 refl) refl
key_exists-after k (b ∷ before) after r h =
    rw (key_exists-after k before after r h) (or_true (same_key b.schedule_key k))

other_key :
    (key : Option ℕ) (k : ℕ) (rs : List Run)
    → key_conflict key rs ≡ false
    → key_exists k rs ≡ true
    → same_key key k ≡ false
other_key none k rs free held = refl
other_key (some j) k rs free held = elim (Bool-cases (j == k)) [
  | inl same ↦ absurd (cc ((==_iff j k).0 same))
  | inr other ↦ other
]

-- The rows before and after the one that holds a key do not hold it.
key_exists-resolved :
    (now k : ℕ) (snapshots : List String) (before after : List Run) (r : Run)
    → AreKeysDistinct (before ++ (r ∷ after))
    → is_running r.status ≡ true
    → r.schedule_key ≡ some k
    → key_exists k (map (resolved now snapshots) (before ++ (r ∷ after)))
      ≡ mem_text r.run_id snapshots
unfolding key_exists recovered
key_exists-resolved now k snapshots [] after r d live holds =
    let free : key_conflict (some k) after ≡ false = rw holds at d.0 in
    let gone =
      (Shrinks-map (resolved now snapshots) after (KeepsColumns-resolved now snapshots)).1 k free in
    rw (live, gone) (held (mem_text r.run_id snapshots))
  where
    held : (b : Bool) → (same_key (recovered b now r).schedule_key k || false) ≡ b
    held true = rw (holds, (==_iff k k).1 refl) refl
    held false = refl
key_exists-resolved now k snapshots (b ∷ before) after r d live holds =
    let other =
      other_key b.schedule_key k (before ++ (r ∷ after)) d.0
        (key_exists-after k before after r holds) in
    rw
      (same_key-shrinks b.schedule_key (resolved now snapshots b).schedule_key k
        (KeepsColumns-resolved now snapshots b).1 other)
      (key_exists-resolved now k snapshots before after r d.1 live holds)

-- Where runs and schedule keys are distinct, and a running run holds a window of the schedule:
-- after the recovery the window is still held exactly when the run left an equity snapshot.
pub schedule_exists-recover_abandoned_runs :
    (now k : ℕ) (s : Store) (before after : List Run) (r : Run)
    → IsKeyed s
    → s.runs ≡ before ++ (r ∷ after)
    → is_running r.status ≡ true
    → r.schedule_key ≡ some k
    → schedule_exists k (recover_abandoned_runs now s).0 ≡ mem_text r.run_id s.equity_snapshots
schedule_exists-recover_abandoned_runs now k s before after r h split live holds =
    rw ((recover_abandoned_runs-map now now s h.distinct_runs).0, split)
      (key_exists-resolved now k s.equity_snapshots before after r (rw split at h.distinct_keys)
        live holds)
