-- ===== src/Workflow/Tests.antt =====
-- Runs of a workflow of two steps, and the theorems at concrete executions.
use cuartel.Common.{ℕ, suc, ◌≡◌, refl, List, [], ◌∷◌, map, some, get_elem?, set, arith}
use cuartel.Agent.{claude_code}
use cuartel.Workflow.Defs.{
  WorkflowDefinition, StepExecution, StepState, WorkflowState, agent, with_retries, new_definition,
  add_step, ok,
}
use cuartel.Workflow.Exec.{
  new, start, begin_step, complete_step, fail_step, pause_at_signal, resume_from_signal,
}
use cuartel.Workflow.Invariant.{IsValid}
use cuartel.Workflow.Runs.{Op, starts, begins, completes, fails, pauses, exec, run, run-new-IsValid}
use cuartel.Workflow.Retries.{Bounded, run-new-Bounded}
use cuartel.Workflow.Progress.{script, resume_succeeds, empty_never_completes, run_to_completion}

abbrev two_steps : WorkflowDefinition
unfolding agent with_retries new_definition add_step
two_steps =
    add_step
      (add_step (new_definition "wf" "Build" "ws") (with_retries (agent "a" claude_code "go") 1))
      (agent "b" claude_code "on")

-- The first step fails once and is retried; the second waits for a signal.
abbrev to_signal : List (Op ℕ)
to_signal =
    starts 1
    ∷ begins 2 2
    ∷ fails "flaky" 3 3
    ∷ begins 4 4
    ∷ completes 7 5 5
    ∷ begins 6 6
    ∷ pauses 7
    ∷ []

signal_state : (run two_steps (new {V = ℕ} "x" two_steps 0) to_signal).state ≡ WorkflowState.paused
unfolding run exec new start begin_step fail_step complete_step pause_at_signal two_steps
signal_state = refl

second_failure :
    (run two_steps
      (new {V = ℕ} "x" two_steps 0)
      (starts 1 ∷ begins 2 2 ∷ fails "a" 3 3 ∷ begins 4 4 ∷ fails "b" 5 5 ∷ [])).state
    ≡ WorkflowState.failed
unfolding run exec new start begin_step fail_step two_steps
second_failure = refl

run-new-IsValid_example : IsValid (run two_steps (new {V = ℕ} "x" two_steps 0) to_signal)
run-new-IsValid_example = run-new-IsValid ℕ "x" two_steps 0 to_signal

run-new-Bounded_example :
    Bounded two_steps.steps (run two_steps (new {V = ℕ} "x" two_steps 0) to_signal).steps
unfolding agent with_retries new_definition add_step
run-new-Bounded_example = run-new-Bounded ℕ "x" two_steps 0 to_signal (omega arith)

resume_succeeds_example :
    let w = run two_steps (new {V = ℕ} "x" two_steps 0) to_signal in
    let r = resume_from_signal w 9 8 8 in
    (s : StepExecution ℕ) × (get_elem? w.steps w.current_step_index ≡ some s)
    × (r.1 ≡ ok tt)
    × (r.0.current_step_index ≡ suc w.current_step_index)
    × (r.0.steps
        ≡ set w.steps w.current_step_index
            (record s { state = StepState.completed; output = some 9; completed_at = some 8 }))
resume_succeeds_example =
    resume_succeeds ℕ (run two_steps (new {V = ℕ} "x" two_steps 0) to_signal) 9 8 8
      (run-new-IsValid ℕ "x" two_steps 0 to_signal) signal_state

abbrev no_steps : WorkflowDefinition
unfolding new_definition
no_steps = new_definition "wf" "Nothing" "ws"

empty_never_completes_example :
    (run no_steps
      (start (new {V = ℕ} "x" no_steps 0) 1).0
      (begins 2 2 ∷ completes 5 3 3 ∷ [])).state
    ≡ WorkflowState.running
unfolding start new new_definition
empty_never_completes_example =
    empty_never_completes ℕ no_steps (start (new {V = ℕ} "x" no_steps 0) 1).0
      (begins 2 2 ∷ completes 5 3 3 ∷ []) ((λ now e. cc), ((λ now e. cc), tt)) refl refl

run_to_completion_example :
    let w = run two_steps (new {V = ℕ} "x" two_steps 0) (starts 1 ∷ script 1 (7 ∷ 8 ∷ [])) in
    (w.state ≡ WorkflowState.completed) × (map (λ s. s.output) w.steps ≡ map some (7 ∷ 8 ∷ []))
unfolding agent with_retries new_definition add_step
run_to_completion_example = run_to_completion ℕ "x" two_steps 0 1 7 (8 ∷ []) refl
