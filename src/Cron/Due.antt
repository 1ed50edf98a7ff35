-- ===== src/Cron/Due.antt =====
-- Scheduled jobs: creation, the advance after a run, and expressions that never fire.
use cuartel.Agent.{AgentType}
use cuartel.Common.{ℕ, String, ◌+◌, ◌≤◌, ◌<◌, ◌≡◌, ◌⊎◌, inl, inr, refl, ap, false, some, arith}
use cuartel.Cron.{Chars, CronError, CronExpr, exact, step, no_next_tick, matches, value_matches}
use cuartel.Cron.Calendar.{Calendar}
use cuartel.Cron.Tick.{Outcome, ok, err, out_of_fuel, next_tick, window, matches_at}
use cuartel.Cron.Parse.{parse, display}
use cuartel.Cron.Valid.{Good, Good-bind}
use cuartel.Cron.Reparse.{IsExpr, parse-IsExpr, display_trip}
use cuartel.Cron.Least.{Finds, next_tick-least}
use cuartel.Cron.Jobs.{ScheduledJob, new, next_run, advanced, advance_schedule, is_due}

exact_step : (n k val min : ℕ) → value_matches (step (exact n) k) val min ≡ false
unfolding value_matches
exact_step n k val min = ground arith

Outcome-cases :
    {A : Type 0} (o : Outcome A)
    → ((a : A) × (o ≡ ok a)) ⊎ ((e : CronError) × (o ≡ err e)) ⊎ (o ≡ out_of_fuel)
Outcome-cases (ok a) = inl (a, refl)
Outcome-cases (err e) = inr (inl (e, refl))
Outcome-cases out_of_fuel = inr (inr refl)

module _ (calendar : Calendar) where
  Finds-later :
      (e : CronExpr) (from limit : ℕ) (o : Outcome ℕ)
      → Finds calendar e from limit o
      → Good (λ t. from ≤ t) o
  Finds-later e from limit (ok t) h = h.0
  Finds-later e from limit (err error) h = tt
  Finds-later e from limit out_of_fuel h = h

  next_run-later : (expr : Chars) (now : ℕ) → Good (λ t. now < t) (next_run calendar expr now)
  unfolding next_run
  next_run-later expr now =
      Good-bind IsExpr (λ t. now < t) (parse expr) _ (parse-IsExpr expr)
        λ e _. later (next_tick calendar e now) (
          Finds-later e (now + 1) (now + window calendar) (next_tick calendar e now)
            (next_tick-least calendar e now))
    where
      later : (o : Outcome ℕ) → Good (λ t. now + 1 ≤ t) o → Good (λ t. now < t) o
      later (ok t) h = omega arith
      later (err error) h = tt
      later out_of_fuel h = h

  -- What `advance_schedule` makes of a job, with its result.
  abbrev pub Advances : ScheduledJob → ℕ → ScheduledJob × Outcome (Unit {0}) → Type 0
  Advances job now out =
      ((next : ℕ) × (out.1 ≡ ok tt)
        × (out.0 ≡ record job { last_run_at = some now; next_run_at = some next })
        × (now < next)
        × (is_due out.0 now ≡ false))
      ⊎ ((error : CronError) × (out.1 ≡ err error)
          × (out.0 ≡ record job { last_run_at = some now })
          × (is_due out.0 now ≡ is_due job now))

  settled :
      (job : ScheduledJob) (now : ℕ) (o : Outcome ℕ)
      → Good (λ t. now < t) o
      → Advances job now (advanced calendar (record job { last_run_at = some now }) o)
  unfolding advanced is_due
  settled job now (ok next) h = inl (next, refl, refl, h, ground arith)
  settled job now (err error) h = inr (error, refl, refl, refl)
  settled job now out_of_fuel h = elim h [ ]

  -- Advancing a job ends. Either it sets the times of the last and the next run, and the job is
  -- not due until the next one, which lies ahead; or it fails, has still set the time of the last
  -- run, and leaves the job due if it was due.
  pub advance_schedule-Advances :
      (job : ScheduledJob) (now : ℕ) → Advances job now (advance_schedule calendar job now)
  unfolding advance_schedule
  advance_schedule-Advances job now =
      settled job now (next_run calendar job.cron_expr now) (next_run-later job.cron_expr now)

  never :
      (e : CronExpr) (from limit : ℕ) (o : Outcome ℕ)
      → ((t : ℕ) → matches_at calendar e t ≡ false)
      → Finds calendar e from limit o
      → o ≡ err no_next_tick
  never e from limit (ok t) h (_, _, _, found, _) = absurd (cc (h t))
  never e from limit (err error) h found = ap err found.0
  never e from limit out_of_fuel h found = elim found [ ]

  never_fires :
      (e : CronExpr) (n k : ℕ)
      → e.minute.value ≡ step (exact n) k
      → (after : ℕ) → next_tick calendar e after ≡ err no_next_tick
  unfolding matches_at matches
  never_fires e n k h after =
      never e (after + 1) (after + window calendar) (next_tick calendar e after)
        (λ t. rw (h, exact_step n k (calendar.minute t) e.minute.min) refl)
        (next_tick-least calendar e after)

  -- A step on a single number, such as `5/10`, as the minute of an expression whose fields
  -- are within their bounds: the parser accepts the text that `Display` writes of it, but the search
  -- for the next run fails from every instant, and so does the making of a job from that text, both
  -- with `NoNextTick`.
  pub exact_step_never :
      (e : CronExpr) (n k : ℕ) (id name : String) (agent : AgentType) (prompt workspace : String)
      (now : ℕ)
      → IsExpr e
      → e.minute.value ≡ step (exact n) k
      → (parse (display e) ≡ ok e)
        × ((after : ℕ) → next_tick calendar e after ≡ err no_next_tick)
        × (new calendar id name (display e) agent prompt workspace now ≡ err no_next_tick)
  unfolding new next_run
  exact_step_never e n k id name agent prompt workspace now h m =
      let accepted = display_trip e h in
      (accepted, never_fires e n k m, rw (accepted, never_fires e n k m now, new) refl)
