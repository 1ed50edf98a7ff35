-- ===== src/Pipeline/Defs.antt =====
-- The data of pipeline.rs, and the parts of a pipeline that no run changes.
use cuartel.Common.{
  ℕ, String, Bool, true, false, Option, List, [], ◌∷◌, ◌++◌, ◌&&◌, not, map, find, select, any, all,
  str_eq,
}
use cuartel.Agent.{AgentType}

-- `StageId` is a newtype of a text.
abbrev pub StageId : Type 0
StageId = String

pub record PipelineStage : Type 0 where
  pub id : StageId
  pub agent_type : AgentType
  pub prompt_template : String
  pub depends_on : List StageId

pub data StageState : Type 0 where
  pending running completed failed skipped : StageState

pub data PipelineRunState : Type 0 where
  pending running completed failed cancelled : PipelineRunState

pub data PipelineError : Type 0 where
  duplicate_stage : StageId → PipelineError
  unknown_dependency : StageId → StageId → PipelineError
  cycle_detected : List StageId → PipelineError
  empty_pipeline : PipelineError
  stage_not_found : StageId → PipelineError
  invalid_transition : StageId → StageState → String → PipelineError
  dependencies_not_met : StageId → PipelineError

pub data Result {ℓ} (A : Type ℓ) : Type ℓ where
  ok : A → Result A
  err : PipelineError → Result A

pub record Pipeline : Type 0 where
  pub id : String
  pub name : String
  pub stages : List PipelineStage

unfoldable pub new_pipeline : String → String → Pipeline
new_pipeline id name = record { id = id; name = name; stages = [] }

unfoldable pub add_stage : Pipeline → PipelineStage → Pipeline
add_stage p s = record p { stages = p.stages ++ s ∷ [] }

-- `contains` of a `BTreeSet` or a `Vec`; a set is the list of its members.
abbrev pub contains : List StageId → StageId → Bool
contains xs x = any (λ y. str_eq y x) xs

unfoldable pub ready_stages : Pipeline → List StageId → List StageId
ready_stages p finished =
    map (λ s. s.id)
      (select (λ s. not (contains finished s.id) && all (contains finished) s.depends_on) p.stages)

unfoldable pub stage : Pipeline → StageId → Option PipelineStage
stage p id = find (λ s. str_eq s.id id) p.stages

pub record StageRun : Type 0 where
  pub stage_id : StageId
  pub state : StageState
  pub session_id : Option String
  pub output : Option String
  pub error : Option String
  pub started_at : Option ℕ
  pub completed_at : Option ℕ

pub record PipelineRun : Type 0 where
  pub id : String
  pub pipeline_id : String
  pub state : PipelineRunState
  pub stages : List (StageId × StageRun)
  pub created_at : ℕ
  pub updated_at : ℕ

abbrev pub run_is_pending : PipelineRunState → Bool
run_is_pending PipelineRunState.pending = true
run_is_pending _ = false

abbrev pub run_is_running : PipelineRunState → Bool
run_is_running PipelineRunState.running = true
run_is_running _ = false

abbrev pub is_pending : StageState → Bool
is_pending StageState.pending = true
is_pending _ = false

abbrev pub is_running : StageState → Bool
is_running StageState.running = true
is_running _ = false

abbrev pub is_completed : StageState → Bool
is_completed StageState.completed = true
is_completed _ = false
