-- ===== src/Metrics.antt =====
-- `_maximum_recovery_duration` of src/metrics.py: the longest time, in days, from a peak of the
-- equity to the first row that reaches it again, or to the last row. The curve is not empty and
-- its index, which pandas has sorted, holds instants.
pub mod Recovery
use hermes_crypto_lab.Base.{ℕ, ◌-◌, ◌/◌, Option, none, some, Bool, List, [], ◌∷◌, if◌then◌else◌}
use hermes_crypto_lab.Time.{day_ns}
use hermes_crypto_lab.Float.{FloatOps}
use hermes_crypto_lab.Strategy.{larger}

pub record Row (F : Type 0) : Type 0 where
  pub timestamp : ℕ
  pub value : F

-- The local variables, and the timestamp of the row before.
pub record Track (F : Type 0) : Type 0 where
  pub peak_value : F
  pub peak_timestamp : ℕ
  pub underwater_peak_timestamp : Option ℕ
  pub maximum_days : ℕ
  pub last_timestamp : ℕ

-- `(later - earlier).days`
abbrev pub days_between : ℕ → ℕ → ℕ
days_between earlier later = (later - earlier) / day_ns

-- `if underwater_peak_timestamp is not None: maximum_days = max(...)`
unfoldable pub with_span : Option ℕ → ℕ → ℕ → ℕ
with_span none now maximum = maximum
with_span (some peak) now maximum = larger maximum (days_between peak now)

abbrev pub or_peak : Option ℕ → ℕ → Option ℕ
or_peak none peak = some peak
or_peak (some p) peak = some p

module _ (fl : FloatOps) where
  open fl use {F, le}

  -- One round of the loop.
  unfoldable pub advance : Row F → Track F → Track F
  advance row s =
      if le s.peak_value row.value
      then record {
        peak_value = row.value;
        peak_timestamp = row.timestamp;
        underwater_peak_timestamp = none;
        maximum_days = with_span s.underwater_peak_timestamp row.timestamp s.maximum_days;
        last_timestamp = row.timestamp;
      }
      else record s {
        underwater_peak_timestamp = or_peak s.underwater_peak_timestamp s.peak_timestamp;
        last_timestamp = row.timestamp;
      }

  unfoldable pub track : List (Row F) → Track F → Track F
  track [] s = s
  track (row ∷ rest) s = track rest (advance row s)

  abbrev pub at_first : Row F → Track F
  at_first first = record {
    peak_value = first.value;
    peak_timestamp = first.timestamp;
    underwater_peak_timestamp = none;
    maximum_days = 0;
    last_timestamp = first.timestamp;
  }

  abbrev pub finish : Track F → ℕ
  finish s = with_span s.underwater_peak_timestamp s.last_timestamp s.maximum_days

  unfoldable pub maximum_recovery_duration : Row F → List (Row F) → ℕ
  maximum_recovery_duration first rest = finish (track rest (at_first first))
