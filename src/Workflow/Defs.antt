-- ===== src/Workflow/Defs.antt =====
-- The data and the methods of workflow.rs.
use cuartel.Common.{
  ℕ, ◌^◌, String, Bool, true, false, Option, none, some, List, [], ◌∷◌, ◌++◌, get_elem?,
}
use cuartel.Agent.{AgentType}

pub data StepAction : Type 0 where
  run_agent : AgentType → String → StepAction
  checkpoint : String → StepAction
  wait_for_signal : String → StepAction
  delay : ℕ → StepAction

pub record WorkflowStep : Type 0 where
  pub id : String
  pub action : StepAction
  pub timeout_seconds : Option ℕ
  pub retry_count : ℕ

pub record WorkflowDefinition : Type 0 where
  pub id : String
  pub name : String
  pub steps : List WorkflowStep
  pub workspace_id : String

-- The constructors of a step: no time limit and no retries, until `with_timeout` or `with_retries`.
plain_step : String → StepAction → WorkflowStep
plain_step id action = record { id = id; action = action; timeout_seconds = none; retry_count = 0 }

unfoldable pub agent : String → AgentType → String → WorkflowStep
unfolding plain_step
agent id agent_type prompt = plain_step id (run_agent agent_type prompt)

unfoldable pub with_timeout : WorkflowStep → ℕ → WorkflowStep
with_timeout s seconds = record s { timeout_seconds = some seconds }

unfoldable pub with_retries : WorkflowStep → ℕ → WorkflowStep
with_retries s count = record s { retry_count = count }

unfoldable pub new_definition : String → String → String → WorkflowDefinition
new_definition id name workspace_id = record {
  id = id;
  name = name;
  steps = [];
  workspace_id = workspace_id;
}

unfoldable pub add_step : WorkflowDefinition → WorkflowStep → WorkflowDefinition
add_step d s = record d { steps = d.steps ++ s ∷ [] }

pub data StepState : Type 0 where
  pending running completed failed skipped waiting_for_signal waiting_for_delay : StepState

pub data WorkflowState : Type 0 where
  pending running completed failed cancelled paused : WorkflowState

pub data WorkflowError : Type 0 where
  step_not_found : String → WorkflowError
  invalid_transition : String → StepState → String → WorkflowError
  already_terminal not_running : WorkflowError

pub record StepExecution (V : Type 0) : Type 0 where
  pub step_id : String
  pub state : StepState
  pub output : Option V
  pub error : Option String
  pub attempts : ℕ
  pub started_at : Option ℕ
  pub completed_at : Option ℕ

pub record WorkflowExecution (V : Type 0) : Type 0 where
  pub id : String
  pub definition_id : String
  pub rivet_workflow_id : Option String
  pub state : WorkflowState
  pub current_step_index : ℕ
  pub steps : List (StepExecution V)
  pub created_at : ℕ
  pub updated_at : ℕ

pub data Result (A : Type 0) : Type 0 where
  ok : A → Result A
  err : WorkflowError → Result A

abbrev pub is_pending : WorkflowState → Bool
is_pending WorkflowState.pending = true
is_pending _ = false

abbrev pub is_running : WorkflowState → Bool
is_running WorkflowState.running = true
is_running _ = false

abbrev pub is_paused : WorkflowState → Bool
is_paused WorkflowState.paused = true
is_paused _ = false

abbrev pub step_is_pending : StepState → Bool
step_is_pending StepState.pending = true
step_is_pending _ = false

abbrev pub step_is_running : StepState → Bool
step_is_running StepState.running = true
step_is_running _ = false

-- `Running`, `WaitingForSignal` or `WaitingForDelay`: what `complete_step` accepts.
abbrev pub can_complete : StepState → Bool
can_complete StepState.running = true
can_complete StepState.waiting_for_signal = true
can_complete StepState.waiting_for_delay = true
can_complete _ = false

abbrev pub u32_mod : ℕ
u32_mod = 2 ^ 32

-- A call of a method on `&mut self`: the execution that it leaves, and what it returns.
abbrev pub Call : Type 0 → Type 0 → Type 0
Call V A = WorkflowExecution V × Result A

abbrev pub out_of_bounds : WorkflowError
out_of_bounds = step_not_found "__out_of_bounds__"

-- The retries that the definition grants the step with an index.
unfoldable pub max_retries : WorkflowDefinition → ℕ → ℕ
max_retries d i = elim (get_elem? d.steps i) [ none ↦ 0 | some s ↦ s.retry_count ]
