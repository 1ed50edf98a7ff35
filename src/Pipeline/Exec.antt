-- ===== src/Pipeline/Exec.antt =====
-- The methods of `PipelineRun`. The map of stage runs is a `BTreeMap` keyed by stage id; `get_mut`
-- followed by assignments is `adjust`. Each `Utc::now()` is an argument.
use cuartel.Common.{
  ℕ, String, Bool, false, Option, none, some, List, [], ◌∷◌, ◌&&◌, map, select, all, if◌then◌else◌,
}
use cuartel.Common.Dict.{lookup, insert, adjust, map_values}
use cuartel.Pipeline.Defs.{
  StageId, PipelineStage, StageState, PipelineRunState, PipelineError, stage_not_found,
  invalid_transition, dependencies_not_met, Result, ok, err, Pipeline, contains, stage, StageRun,
  PipelineRun, run_is_pending, run_is_running, is_pending, is_running, is_completed,
}

unfoldable pub new_stage_run : PipelineStage → StageRun
new_stage_run s = record {
  stage_id = s.id;
  state = StageState.pending;
  session_id = none;
  output = none;
  error = none;
  started_at = none;
  completed_at = none;
}

-- `collect` into the map: one insertion after another.
unfoldable pub collect_runs :
    List (StageId × StageRun) → List PipelineStage → List (StageId × StageRun)
unfolding new_stage_run
collect_runs m [] = m
collect_runs m (s ∷ ss) = collect_runs (insert s.id (new_stage_run s) m) ss

unfoldable pub new : String → Pipeline → ℕ → PipelineRun
unfolding collect_runs
new id p now = record {
  id = id;
  pipeline_id = p.id;
  state = PipelineRunState.pending;
  stages = collect_runs [] p.stages;
  created_at = now;
  updated_at = now;
}

-- A call of a method on `&mut self`: the run that it leaves, and what it returns.
abbrev pub Call : Type 0
Call = PipelineRun × Result (Unit {0})

unfoldable pub start : PipelineRun → ℕ → Call
start r now =
    if run_is_pending r.state
    then (record r { state = PipelineRunState.running; updated_at = now }, ok tt)
    else (r, err (invalid_transition "__pipeline__" StageState.pending "start"))

-- The loop over the dependencies in `start_stage`; `none` when it runs to its end.
unfoldable pub check_dependencies :
    StageId → List (StageId × StageRun) → List StageId → Option PipelineError
check_dependencies id m [] = none
check_dependencies id m (d ∷ ds) = elim (lookup d m) [
  | none ↦ some (stage_not_found d)
  | some dep_run ↦
      if is_completed dep_run.state
      then check_dependencies id m ds
      else some (dependencies_not_met id)
]

unfoldable pub start_found : PipelineRun → StageId → String → ℕ → ℕ → StageRun → Call
start_found r id session started now run =
    if is_pending run.state
    then (
      record r {
        stages =
            adjust
              (λ x. record x {
                state = StageState.running;
                session_id = some session;
                started_at = some started;
              })
              id r.stages;
        updated_at = now;
      },
      ok tt,
    )
    else (r, err (invalid_transition id run.state "start_stage"))

unfoldable pub start_checked : PipelineRun → StageId → String → ℕ → ℕ → Option PipelineError → Call
unfolding start_found
start_checked r id session started now (some e) = (r, err e)
start_checked r id session started now none = elim (lookup id r.stages) [
  | none ↦ (r, err (stage_not_found id))
  | some run ↦ start_found r id session started now run
]

unfoldable pub start_stage : PipelineRun → StageId → String → Pipeline → ℕ → ℕ → Call
unfolding start_checked
start_stage r id session p started now = elim (stage p id) [
  | none ↦ (r, err (stage_not_found id))
  | some def ↦
      start_checked r id session started now (check_dependencies id r.stages def.depends_on)
]

-- Set to `Completed` when all stages are.
unfoldable pub finish_if_all : PipelineRun → PipelineRun
finish_if_all r =
    if all (λ e. is_completed e.1.state) r.stages
    then record r { state = PipelineRunState.completed }
    else r

unfoldable pub complete_found : PipelineRun → StageId → String → ℕ → ℕ → StageRun → Call
unfolding finish_if_all
complete_found r id output done now run =
    if is_running run.state
    then (
      finish_if_all (record r {
        stages =
            adjust
              (λ x. record x {
                state = StageState.completed;
                output = some output;
                completed_at = some done;
              })
              id r.stages;
        updated_at = now;
      }),
      ok tt,
    )
    else (r, err (invalid_transition id run.state "complete_stage"))

unfoldable pub complete_stage : PipelineRun → StageId → String → ℕ → ℕ → Call
unfolding complete_found
complete_stage r id output done now = elim (lookup id r.stages) [
  | none ↦ (r, err (stage_not_found id))
  | some run ↦ complete_found r id output done now run
]

unfoldable pub skip_pending : StageRun → StageRun
skip_pending x = if is_pending x.state then record x { state = StageState.skipped } else x

unfoldable pub fail_found : PipelineRun → StageId → String → ℕ → ℕ → StageRun → Call
unfolding skip_pending
fail_found r id error done now run =
    if is_running run.state
    then (
      record r {
        state = PipelineRunState.failed;
        stages = map_values skip_pending (
            adjust
              (λ x. record x {
                state = StageState.failed;
                error = some error;
                completed_at = some done;
              })
              id r.stages);
        updated_at = now;
      },
      ok tt,
    )
    else (r, err (invalid_transition id run.state "fail_stage"))

unfoldable pub fail_stage : PipelineRun → StageId → String → ℕ → ℕ → Call
unfolding fail_found
fail_stage r id error done now = elim (lookup id r.stages) [
  | none ↦ (r, err (stage_not_found id))
  | some run ↦ fail_found r id error done now run
]

unfoldable pub cancel : PipelineRun → ℕ → PipelineRun
unfolding skip_pending
cancel r now = record r {
  state = PipelineRunState.cancelled;
  stages = map_values skip_pending r.stages;
  updated_at = now;
}

abbrev pub completed_ids : List (StageId × StageRun) → List StageId
completed_ids m = map (λ e. e.0) (select (λ e. is_completed e.1.state) m)

-- `map_or(false, …)`: a stage of the pipeline that the run has, and has as pending.
abbrev pub pending_at : Option StageRun → Bool
pending_at none = false
pending_at (some x) = is_pending x.state

unfoldable pub runnable_stages : PipelineRun → Pipeline → List StageId
runnable_stages r p =
    if run_is_running r.state
    then map (λ s. s.id)
        (select
          (λ s.
            pending_at (lookup s.id r.stages)
            && all (contains (completed_ids r.stages)) s.depends_on)
          p.stages)
    else []

unfoldable pub completed_outputs : List (StageId × StageRun) → List (StageId × String)
completed_outputs [] = []
completed_outputs ((id, x) ∷ m) = elim x.output [
  | none ↦ completed_outputs m
  | some o ↦ (id, o) ∷ completed_outputs m
]
