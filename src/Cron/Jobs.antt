-- ===== src/Cron/Jobs.antt =====
-- crates/cuartel-core/src/cron.rs: `ScheduledJob`. What `Utc::now()` returns is an argument.
use cuartel.Common.{ℕ, String, Bool, true, false, ◌&&◌, List, Option, none, some, leb, select}
use cuartel.Agent.{AgentType}
use cuartel.Cron.{Chars}
use cuartel.Cron.Calendar.{Calendar}
use cuartel.Cron.Tick.{Outcome, ok, err, out_of_fuel, next_tick}
use cuartel.Cron.Parse.{parse, ◌>>=◌}

pub record ScheduledJob : Type 0 where
  pub id : String
  pub name : String
  pub cron_expr : Chars
  pub agent_type : AgentType
  pub prompt : String
  pub workspace_id : String
  pub enabled : Bool
  pub last_run_at : Option ℕ
  pub next_run_at : Option ℕ
  pub created_at : ℕ

module _ (calendar : Calendar) where
  -- `parsed.next_tick(&now)` of a text
  unfoldable pub next_run : Chars → ℕ → Outcome ℕ
  next_run expr now = do parsed ← parse expr; next_tick calendar parsed now

  unfoldable pub new :
      String → String → Chars → AgentType → String → String → ℕ → Outcome ScheduledJob
  unfolding next_run
  new id name cron_expr agent_type prompt workspace_id now = do
    next ← next_run cron_expr now
    ok (record {
      id = id;
      name = name;
      cron_expr = cron_expr;
      agent_type = agent_type;
      prompt = prompt;
      workspace_id = workspace_id;
      enabled = true;
      last_run_at = none;
      next_run_at = some next;
      created_at = now;
    })

  -- The end of `advance_schedule`: the time of the run is kept when the next one is not found.
  unfoldable pub advanced : ScheduledJob → Outcome ℕ → ScheduledJob × Outcome (Unit {0})
  advanced job (ok next) = (record job { next_run_at = some next }, ok tt)
  advanced job (err e) = (job, err e)
  advanced job out_of_fuel = (job, out_of_fuel)

  unfoldable pub advance_schedule : ScheduledJob → ℕ → ScheduledJob × Outcome (Unit {0})
  unfolding advanced
  advance_schedule job now =
      advanced (record job { last_run_at = some now }) (next_run job.cron_expr now)

abbrev pub reached : Option ℕ → ℕ → Bool
reached none now = false
reached (some next) now = leb next now

unfoldable pub is_due : ScheduledJob → ℕ → Bool
is_due job now = job.enabled && reached job.next_run_at now

unfoldable pub collect_due_jobs : List ScheduledJob → ℕ → List ScheduledJob
unfolding is_due
collect_due_jobs jobs now = select (λ j. is_due j now) jobs
