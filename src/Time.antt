-- ===== src/Time.antt =====
-- Instants, as pandas gives them: nanoseconds of UTC. The count starts at Monday, 1 January 1601,
-- 00:00 UTC, which lies before every nanosecond Timestamp (pandas begins in 1677), so an instant
-- is a natural number, and its day and weekday are quotients.
use hermes_crypto_lab.Base.{ℕ, ◌-◌, ◌*◌, ◌/◌, ◌%◌, Option, none, some}

-- What `pd.Timestamp(value)` may be: `NaT`, a time without a zone, or an instant.
pub data Timestamp : Type 0 where
  nat : Timestamp
  naive : ℕ → Timestamp
  aware : ℕ → Timestamp

-- `None if pd.isna(t) or t.tzinfo is None else t.tz_convert("UTC")`
abbrev pub instant : Timestamp → Option ℕ
instant nat = none
instant (naive t) = none
instant (aware t) = some t

abbrev pub second_ns : ℕ
second_ns = 1_000_000_000

abbrev pub minute_ns : ℕ
minute_ns = 60 * second_ns

abbrev pub hour_ns : ℕ
hour_ns = 60 * minute_ns

abbrev pub day_ns : ℕ
day_ns = 24 * hour_ns

-- `t.normalize()`: midnight of the day.
unfoldable pub normalize : ℕ → ℕ
normalize t = t - t % day_ns

-- `t.weekday()`, Monday being 0.
unfoldable pub weekday : ℕ → ℕ
weekday t = t / day_ns % 7
