-- ===== src/Metrics/Recovery.antt =====
-- `_maximum_recovery_duration` and its description row by row.
use hermes_crypto_lab.Base.{
  ℕ, ◌≤◌, ◌≡◌, refl, sym, ap, ◌∙◌, Option, none, some, Bool, true, false, List, [], ◌∷◌,
  if◌then◌else◌, arith, Bool-cases, inl, inr,
}
use hermes_crypto_lab.Float.{FloatOps}
use hermes_crypto_lab.Strategy.{larger}
use hermes_crypto_lab.Metrics.{
  Row, Track, days_between, with_span, advance, track, finish, maximum_recovery_duration,
}

-- The timestamps do not decrease, from a lower bound on.
abbrev pub IsSorted : {F : Type 0} → ℕ → List (Row F) → Type 0
IsSorted from [] = Unit
IsSorted from (row ∷ rest) = (from ≤ row.timestamp) × IsSorted row.timestamp rest

larger_absorbs : (m a b l : ℕ) → a ≤ b → larger (larger m b) l ≡ larger (larger m a) (larger b l)
larger_absorbs m a b l h = ground (arith, h)

larger_assoc : (m b l : ℕ) → larger (larger m b) l ≡ larger m (larger b l)
larger_assoc m b l = ground arith

larger_zero : (m : ℕ) → larger m 0 ≡ m
larger_zero m = ground arith

larger_of_zero : (m : ℕ) → larger 0 m ≡ m
larger_of_zero m = ground arith

days_between_mono : (p t u : ℕ) → t ≤ u → days_between p t ≤ days_between p u
days_between_mono p t u h = omega (arith, h)

module _ (fl : FloatOps) where
  open fl use {F, le}

  -- The largest number of days from the last peak to a row that lies below it, or that is the
  -- first to reach it again. `below` tells whether the row before lies below.
  unfoldable pub longest_span : F → ℕ → Bool → List (Row F) → ℕ
  longest_span peak since below [] = 0
  longest_span peak since below (row ∷ rest) =
      if le peak row.value
      then larger (if below then days_between since row.timestamp else 0)
          (longest_span row.value row.timestamp false rest)
      else larger (days_between since row.timestamp) (longest_span peak since true rest)

  -- The loop in the middle, above or below the last peak.
  abbrev under : Bool → ℕ → Option ℕ
  under true since = some since
  under false since = none

  abbrev middle : F → ℕ → Bool → ℕ → ℕ → Track F
  middle peak since below maximum last = record {
    peak_value = peak;
    peak_timestamp = since;
    underwater_peak_timestamp = under below since;
    maximum_days = maximum;
    last_timestamp = last;
  }

  abbrev so_far : Bool → ℕ → ℕ → ℕ → ℕ
  so_far true since maximum last = larger maximum (days_between since last)
  so_far false since maximum last = maximum

  reaching :
      (peak : F) (since : ℕ) (below : Bool) (maximum last : ℕ) (row : Row F)
      → le peak row.value ≡ true
      → advance fl row (middle peak since below maximum last)
        ≡ middle row.value row.timestamp false
            (so_far below since maximum row.timestamp)
            row.timestamp
  unfolding advance with_span
  reaching peak since true maximum last row h = rw h refl
  reaching peak since false maximum last row h = rw h refl

  falling :
      (peak : F) (since : ℕ) (below : Bool) (maximum last : ℕ) (row : Row F)
      → le peak row.value ≡ false
      → advance fl row (middle peak since below maximum last)
        ≡ middle peak since true maximum row.timestamp
  unfolding advance
  falling peak since true maximum last row h = rw h refl
  falling peak since false maximum last row h = rw h refl

  abbrev span_at : Bool → ℕ → ℕ → ℕ
  span_at true since t = days_between since t
  span_at false since t = 0

  span_reaching :
      (peak : F) (since : ℕ) (below : Bool) (row : Row F) (rest : List (Row F))
      → le peak row.value ≡ true
      → longest_span peak since below (row ∷ rest)
        ≡ larger
            (span_at below since row.timestamp)
            (longest_span row.value row.timestamp false rest)
  unfolding longest_span
  span_reaching peak since true row rest h = rw h refl
  span_reaching peak since false row rest h = rw h refl

  span_falling :
      (peak : F) (since : ℕ) (below : Bool) (row : Row F) (rest : List (Row F))
      → le peak row.value ≡ false
      → longest_span peak since below (row ∷ rest)
        ≡ larger (days_between since row.timestamp) (longest_span peak since true rest)
  unfolding longest_span
  span_falling peak since below row rest h = rw h refl

  -- A later row makes the days of the rows before it in the same span superfluous.
  so_far-reaching :
      (below : Bool) (since maximum last now l : ℕ)
      → last ≤ now
      → larger (so_far below since maximum now) l
        ≡ larger (so_far below since maximum last) (larger (span_at below since now) l)
  so_far-reaching true since maximum last now l h =
      larger_absorbs maximum (days_between since last) (days_between since now) l
        (days_between_mono since last now h)
  so_far-reaching false since maximum last now l h = ap (larger maximum) (sym (larger_of_zero l))

  so_far-falling :
      (below : Bool) (since maximum last now l : ℕ)
      → last ≤ now
      → larger (larger maximum (days_between since now)) l
        ≡ larger (so_far below since maximum last) (larger (days_between since now) l)
  so_far-falling true since maximum last now l h =
      larger_absorbs maximum (days_between since last) (days_between since now) l
        (days_between_mono since last now h)
  so_far-falling false since maximum last now l h = larger_assoc maximum (days_between since now) l

  finish-track :
      (peak : F) (since : ℕ) (below : Bool) (maximum last : ℕ) (rows : List (Row F))
      → IsSorted last rows
      → finish fl (track fl rows (middle peak since below maximum last))
        ≡ larger (so_far below since maximum last) (longest_span peak since below rows)
  unfolding track with_span longest_span
  finish-track peak since true maximum last [] sorted = sym (larger_zero _)
  finish-track peak since false maximum last [] sorted = sym (larger_zero _)
  finish-track peak since below maximum last (row ∷ rest) sorted =
      elim (Bool-cases (le peak row.value)) [
        | inl reached ↦
            let later = longest_span row.value row.timestamp false rest in
            ap (λ (s : Track F). finish fl (track fl rest s))
              (reaching peak since below maximum last row reached)
            ∙ finish-track row.value row.timestamp false (so_far below since maximum row.timestamp)
                row.timestamp rest sorted.1
            ∙ so_far-reaching below since maximum last row.timestamp later sorted.0
            ∙ ap (larger (so_far below since maximum last))
                (sym (span_reaching peak since below row rest reached))
        | inr short ↦
            let later = longest_span peak since true rest in
            ap (λ (s : Track F). finish fl (track fl rest s))
              (falling peak since below maximum last row short)
            ∙ finish-track peak since true maximum row.timestamp rest sorted.1
            ∙ so_far-falling below since maximum last row.timestamp later sorted.0
            ∙ ap (larger (so_far below since maximum last))
                (sym (span_falling peak since below row rest short))
      ]

  -- On rows in the order of time, the recovery duration is the largest number of days from the last
  -- peak to a row that lies below it, or that is the first to reach it again; it is zero when
  -- there is no such row.
  pub maximum_recovery_duration-longest_span :
      (first : Row F) (rest : List (Row F))
      → IsSorted first.timestamp rest
      → maximum_recovery_duration fl first rest
        ≡ longest_span first.value first.timestamp false rest
  unfolding maximum_recovery_duration
  maximum_recovery_duration-longest_span first rest sorted =
      finish-track first.value first.timestamp false 0 first.timestamp rest sorted
      ∙ larger_of_zero (longest_span first.value first.timestamp false rest)
