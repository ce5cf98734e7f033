-- ===== src/Forward/Rows.antt =====
-- The table `forward_schedule_windows` of src/paper_store.py before and after a new row.
use hermes_crypto_lab.Base.{
  ℕ, ◌≡◌, refl, true, false, List, ◌∷◌, ◌==◌, Bool-cases, inl, inr, ==_iff,
}
use hermes_crypto_lab.Forward.Tables.{ForwardTables, Window, window_exists, window_at}

-- The later tables have the rows of the windows as they were, and maybe more.
pub record Grows (t t' : ForwardTables) : Type 0 where
  pub experiments : t'.experiments ≡ t.experiments
  pub kept :
      (k : ℕ)
      → window_exists k t.windows ≡ true
      → (window_exists k t'.windows ≡ true) × (window_at k t'.windows ≡ window_at k t.windows)

pub Grows-refl : (t : ForwardTables) → Grows t t
Grows-refl t = record { experiments = refl; kept = λ k h. (h, refl) }

pub Grows-trans : (t u v : ForwardTables) → Grows t u → Grows u v → Grows t v
Grows-trans t u v g h = record {
  experiments = rw h.experiments g.experiments;
  kept = λ k there.
      let (there', same) = g.kept k there in
      let (there'', same') = h.kept k there' in (there'', rw same' same);
}

other_window :
    (k key : ℕ) (ws : List Window)
    → window_exists k ws ≡ true
    → window_exists key ws ≡ false
    → (key == k) ≡ false
other_window k key ws there away = elim (Bool-cases (key == k)) [
  | inl same ↦ absurd (cc (subst_key ((==_iff key k).0 same) there, away))
  | inr other ↦ other
]
  where
    subst_key : key ≡ k → window_exists k ws ≡ true → window_exists key ws ≡ true
    subst_key e h = rw e h

-- A row for a window without one.
abbrev pub WithRow : (t t' : ForwardTables) → Window → Type 0
WithRow t t' n = (t'.windows ≡ n ∷ t.windows) × (t'.experiments ≡ t.experiments)

pub WithRow-Grows :
    (t t' : ForwardTables) (n : Window)
    → WithRow t t' n
    → window_exists n.schedule_key t.windows ≡ false
    → Grows t t'
unfolding window_exists window_at
WithRow-Grows t t' n (rows, same) away = record {
  experiments = same;
  kept = λ k there.
      let other = other_window k n.schedule_key t.windows there away in
      (rw (rows, other) there, rw (rows, other) refl);
}
