-- ===== src/Cron/Least.antt =====
-- `next_tick` finds the first minute that matches.
use cuartel.Common.{
  ℕ, zero, suc, ◌+◌, ◌*◌, ◌/◌, ◌%◌, ◌≤◌, ◌<◌, ◌≡◌, ◌⊎◌, inl, inr, refl, true, false, leb, ltb,
  arith, Bool-cases,
}
use cuartel.Cron.{CronExpr, no_next_tick, matches}
use cuartel.Cron.Calendar.{Calendar, per_minute, per_hour}
use cuartel.Cron.Tick.{
  Outcome, ok, err, out_of_fuel, matches_at, advance_month, advance_day, advance_hour, advance,
  search_tick, first_candidate, window, rounds, next_tick,
}

module _ (calendar : Calendar) where
  open calendar use {
    minute, hour, day, weekday, month, year, start_of_minute_lem, start_of_hour_lem,
    next_midnight_lem, same_hour, same_day, first_of_next,
  }

  -- No full minute from one instant up to another matches.
  abbrev Quiet : CronExpr → ℕ → ℕ → Type 0
  Quiet e from to =
      (s : ℕ) → from ≤ s → s < to → s % per_minute ≡ 0 → matches_at calendar e s ≡ false

  abbrev Skips : CronExpr → ℕ → ℕ → Type 0
  Skips e t next = (t < next) × (next % per_minute ≡ 0) × Quiet e t next

  -- One field that does not match is enough.
  unmatched :
      (e : CronExpr) (s : ℕ)
      → (matches e.month (month s) ≡ false)
        ⊎ (matches e.day_of_month (day s) ≡ false)
        ⊎ (matches e.day_of_week (weekday s) ≡ false)
        ⊎ (matches e.hour (hour s) ≡ false)
      → matches_at calendar e s ≡ false
  unfolding matches_at
  unmatched e s h = ground arith

  Skips-month :
      (e : CronExpr) (t : ℕ)
      → matches e.month (month t) ≡ false
      → Skips e t (advance_month calendar t)
  unfolding advance_month
  Skips-month e t h =
      let (n, there, later, same) = first_of_next t in
      rw there (
        omega arith,
        omega arith,
        λ s from to full. unmatched e s (inl (rw (same s from (omega arith)) h)),
      )

  Skips-day :
      (e : CronExpr) (t : ℕ)
      → (matches e.day_of_month (day t) ≡ false) ⊎ (matches e.day_of_week (weekday t) ≡ false)
      → Skips e t (advance_day calendar t)
  unfolding advance_day
  Skips-day e t h = rw (next_midnight_lem t) (
    omega arith,
    omega arith,
    λ s from to full.
        let (days, weekdays) = same_day s t (omega arith) in
        unmatched e s
          (elim h [ inl d ↦ inr (inl (rw days d)) | inr w ↦ inr (inr (inl (rw weekdays w))) ]),
  )

  Skips-hour :
      (e : CronExpr) (t : ℕ)
      → t % per_minute ≡ 0
      → matches e.hour (hour t) ≡ false
      → Skips e t (advance_hour calendar t)
  unfolding advance_hour
  Skips-hour e t aligned h = rw (start_of_hour_lem (t + per_hour)) (
    omega arith,
    omega arith,
    λ s from to full. unmatched e s (inr (inr (inr (rw (same_hour s t (omega arith)) h)))),
  )

  -- A full minute that does not match is the first of those that a round may pass over.
  skips :
      (e : CronExpr) (t : ℕ)
      → t % per_minute ≡ 0
      → matches_at calendar e t ≡ false
      → Skips e t (advance calendar e t)
  unfolding advance
  skips e t aligned h = elim (Bool-cases (matches e.month (month t))) [
    | inr m ↦ rw m (Skips-month e t m)
    | inl m ↦ elim (Bool-cases (matches e.day_of_month (day t))) [
      | inr d ↦ rw (m, d) (Skips-day e t (inl d))
      | inl d ↦ elim (Bool-cases (matches e.day_of_week (weekday t))) [
        | inr w ↦ rw (m, d, w) (Skips-day e t (inr w))
        | inl w ↦ elim (Bool-cases (matches e.hour (hour t))) [
          | inr k ↦ rw (m, d, w, k) (Skips-hour e t aligned k)
          | inl k ↦
              rw (m, d, w, k)
                (
                  omega arith,
                  omega arith,
                  λ s from to full. rw (let same : s ≡ t = omega arith in same) h,
                )
        ]
      ]
    ]
  ]

  -- What the search promises from a full minute on: the first match, or none up to the limit.
  abbrev pub Finds : CronExpr → ℕ → ℕ → Outcome ℕ → Type 0
  Finds e from limit (ok t) =
      (from ≤ t)
      × (t ≤ limit)
      × (t % per_minute ≡ 0)
      × (matches_at calendar e t ≡ true)
      × Quiet e from t
  Finds e from limit (err error) = (error ≡ no_next_tick) × Quiet e from (limit + 1)
  Finds e from limit out_of_fuel = ⊥

  Quiet-join : (e : CronExpr) (a b c : ℕ) → Quiet e a b → Quiet e b c → Quiet e a c
  Quiet-join e a b c before behind s from to full = elim (Bool-cases (ltb s b)) [
    | inl h ↦ before s from (ground arith) full
    | inr h ↦ behind s (ground arith) to full
  ]

  Finds-behind :
      (e : CronExpr) (from next limit : ℕ) (o : Outcome ℕ)
      → from ≤ next
      → Quiet e from next
      → Finds e next limit o
      → Finds e from limit o
  Finds-behind e from next limit (ok t) le q (a, b, c, d, behind) =
      (omega arith, b, c, d, Quiet-join e from next t q behind)
  Finds-behind e from next limit (err error) le q (same, behind) =
      (same, Quiet-join e from next (limit + 1) q behind)
  Finds-behind e from next limit out_of_fuel le q h = h

  -- Each round moves on by a minute at least, and there is fuel for every minute.
  search_tick-Finds :
      (fuel : ℕ) (e : CronExpr) (limit t : ℕ)
      → t % per_minute ≡ 0
      → 0 < fuel
      → limit + per_minute < t + fuel * per_minute
      → Finds e t limit (search_tick calendar fuel e limit t)
  unfolding search_tick
  search_tick-Finds zero e limit t aligned some_fuel enough = elim some_fuel [ ]
  search_tick-Finds (suc fuel) e limit t aligned some_fuel enough =
      elim (Bool-cases (leb t limit)) [
        | inr past ↦ rw past (refl, λ s from to full. absurd (ground arith))
        | inl within ↦ elim (Bool-cases (matches_at calendar e t)) [
          | inl found ↦
              rw (within, found)
                (omega arith, ground arith, aligned, found, λ s from to full. absurd (omega arith))
          | inr missed ↦
              let (on, full, quiet) = skips e t aligned missed in
              let low : t ≤ limit = ground arith in
              rw (within, missed)
                (Finds-behind e t (advance calendar e t) limit _ (omega arith) quiet (
                  search_tick-Finds fuel e limit (advance calendar e t) full (omega arith)
                    (omega arith)))
        ]
      ]

  first_candidate-start :
      (after : ℕ) → first_candidate calendar after ≡ (after + per_minute) / per_minute * per_minute
  unfolding first_candidate
  first_candidate-start after = rw (start_of_minute_lem (after + per_minute)) refl

  -- `next_tick` ends. Its result is the first full minute after the given instant that matches, and
  -- lies in the window of 1464 days; it is the error `NoNextTick` exactly if no full minute of that
  -- window matches.
  pub next_tick-least :
      (e : CronExpr) (after : ℕ)
      → Finds e (after + 1) (after + window calendar) (next_tick calendar e after)
  unfolding next_tick
  next_tick-least e after =
      let start = first_candidate calendar after in
      let limit = after + window calendar in
      let at = first_candidate-start after in
      Finds-behind e (after + 1) start limit _ (omega (arith, at))
        (λ s from to full. absurd (omega (arith, at)))
        (search_tick-Finds (rounds calendar) e limit start (omega (arith, at)) (omega arith)
          (omega (arith, at)))
