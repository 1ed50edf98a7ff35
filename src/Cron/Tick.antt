-- ===== src/Cron/Tick.antt =====
-- crates/cuartel-core/src/cron.rs: `CronExpr::matches` and `next_tick` with its three `advance`
-- functions. The loop has fuel for one round in each minute of the four years that it searches.
use cuartel.Common.{
  ℕ, suc, zero, ◌+◌, ◌*◌, Bool, not, ◌&&◌, ◌||◌, Option, some, none, leb, if◌then◌else◌,
}
use cuartel.Cron.{CronExpr, CronError, no_next_tick, matches}
use cuartel.Cron.Calendar.{Calendar, per_minute, per_hour, per_day, next_year, next_month}

pub data Outcome (A : Type 0) : Type 0 where
  ok : A → Outcome A
  err : CronError → Outcome A
  out_of_fuel : Outcome A

abbrev unwrap_or : Option ℕ → ℕ → ℕ
unwrap_or none default = default
unwrap_or (some t) default = t

module _ (calendar : Calendar) where
  open calendar use {
    minute, hour, day, weekday, month, year, start_of_minute, start_of_hour, midnight,
    next_midnight, first_of,
  }

  unfoldable pub matches_at : CronExpr → ℕ → Bool
  matches_at e t =
      matches e.minute (minute t)
      && matches e.hour (hour t)
      && matches e.day_of_month (day t)
      && matches e.month (month t)
      && matches e.day_of_week (weekday t)

  unfoldable pub advance_month : ℕ → ℕ
  advance_month t =
      unwrap_or (first_of (next_year (year t) (month t)) (next_month (month t))) (midnight t)

  unfoldable pub advance_day : ℕ → ℕ
  advance_day t = unwrap_or (next_midnight t) (midnight t)

  unfoldable pub advance_hour : ℕ → ℕ
  advance_hour t = unwrap_or (start_of_hour (t + per_hour)) (t + per_hour)

  -- The candidate of the next round.
  unfoldable pub advance : CronExpr → ℕ → ℕ
  unfolding advance_month advance_day advance_hour
  advance e t =
      if not (matches e.month (month t))
      then advance_month t
      else if not (matches e.day_of_month (day t)) || not (matches e.day_of_week (weekday t))
      then advance_day t
      else if not (matches e.hour (hour t))
      then advance_hour t
      else t + per_minute

  unfoldable pub search_tick : ℕ → CronExpr → ℕ → ℕ → Outcome ℕ
  unfolding advance matches_at
  search_tick zero e limit t = out_of_fuel
  search_tick (suc fuel) e limit t =
      let later = search_tick fuel e limit (advance e t) in
      if leb t limit then if matches_at e t then ok t else later else err no_next_tick

  abbrev pub window : ℕ
  window = 366 * 4 * per_day

  abbrev pub rounds : ℕ
  rounds = 366 * 4 * 24 * 60 + 2

  unfoldable pub first_candidate : ℕ → ℕ
  first_candidate after = unwrap_or (start_of_minute (after + per_minute)) (after + per_minute)

  unfoldable pub next_tick : CronExpr → ℕ → Outcome ℕ
  next_tick e after = search_tick rounds e (after + window) (first_candidate after)
