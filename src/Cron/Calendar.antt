-- ===== src/Cron/Calendar.antt =====
-- The part of the crate `chrono` that crates/cuartel-core/src/cron.rs uses. An instant
-- `DateTime<Utc>` is the number of nanoseconds since a fixed midnight, so that adding a duration is
-- addition; UTC has no gaps. The calendar has no last day here, where `chrono` ends with the year
-- 262142.
use cuartel.Common.{ℕ, ◌+◌, ◌*◌, ◌/◌, ◌≤◌, ◌<◌, ◌≡◌, Option, some, if◌then◌else◌, ◌==◌}

abbrev pub per_minute : ℕ
per_minute = 60000000000

abbrev pub per_hour : ℕ
per_hour = 3600000000000

abbrev pub per_day : ℕ
per_day = 86400000000000

-- The month after a month of a year.
abbrev pub next_year : ℕ → ℕ → ℕ
next_year year month = if month == 12 then year + 1 else year

abbrev pub next_month : ℕ → ℕ
next_month month = if month == 12 then 1 else month + 1

pub record Calendar : Type 0 where
  pub minute : ℕ → ℕ
  pub hour : ℕ → ℕ
  pub day : ℕ → ℕ
  pub weekday : ℕ → ℕ
  pub month : ℕ → ℕ
  pub year : ℕ → ℕ
  -- `with_second(0)` and `with_nanosecond(0)`, with `with_minute(0)` before them for the hour
  pub start_of_minute : ℕ → Option ℕ
  pub start_of_hour : ℕ → Option ℕ
  -- Midnight of the date, of the date after it (`succ_opt`), and of the first of a month
  -- (`from_ymd_opt`)
  pub midnight : ℕ → ℕ
  pub next_midnight : ℕ → Option ℕ
  pub first_of : ℕ → ℕ → Option ℕ
  pub start_of_minute_lem : (t : ℕ) → start_of_minute t ≡ some (t / per_minute * per_minute)
  pub start_of_hour_lem : (t : ℕ) → start_of_hour t ≡ some (t / per_hour * per_hour)
  pub next_midnight_lem : (t : ℕ) → next_midnight t ≡ some ((t / per_day + 1) * per_day)
  pub same_hour : (s t : ℕ) → s / per_hour ≡ t / per_hour → hour s ≡ hour t
  pub same_day : (s t : ℕ) → s / per_day ≡ t / per_day → (day s ≡ day t) × (weekday s ≡ weekday t)
  -- The first of the next month is midnight of a later day, and the month lasts until then.
  pub first_of_next :
      (t : ℕ)
      → (n : ℕ) × (first_of (next_year (year t) (month t)) (next_month (month t))
          ≡ some (n * per_day))
        × (t / per_day < n)
        × ((s : ℕ) → t ≤ s → s / per_day < n → month s ≡ month t)
