-- ===== src/Workflow/Exec.antt =====
-- The methods of `WorkflowExecution`, each with its guards in the order of the source.
use cuartel.Common.{
  ℕ, zero, suc, ◌+◌, ◌%◌, String, Bool, true, false, Option, none, some, List, [], ◌∷◌, map,
  get_elem?, set, length, leb, if◌then◌else◌,
}
use cuartel.Workflow.Defs.{
  WorkflowStep, WorkflowDefinition, StepExecution, WorkflowExecution, ok, err, invalid_transition,
  already_terminal, not_running, is_pending, is_running, is_paused, step_is_pending,
  step_is_running, can_complete, u32_mod, Call, out_of_bounds, max_retries, pending, running,
  completed, failed, skipped, waiting_for_signal, cancelled, paused,
}

module _ {V : Type 0} where
  unfoldable pub new_step : WorkflowStep → StepExecution V
  new_step s = record {
    step_id = s.id;
    state = pending;
    output = none;
    error = none;
    attempts = 0;
    started_at = none;
    completed_at = none;
  }

  unfoldable pub new : String → WorkflowDefinition → ℕ → WorkflowExecution V
  unfolding new_step
  new id definition now = record {
    id = id;
    definition_id = definition.id;
    rivet_workflow_id = none;
    state = pending;
    current_step_index = 0;
    steps = map new_step definition.steps;
    created_at = now;
    updated_at = now;
  }

  unfoldable pub start : WorkflowExecution V → ℕ → Call V (Unit {0})
  start w now =
      if is_pending w.state
      then (record w { state = running; updated_at = now }, ok tt)
      else (w, err already_terminal)

  unfoldable pub current_step : WorkflowExecution V → Option (StepExecution V)
  current_step w = get_elem? w.steps w.current_step_index

  -- The execution with another current step.
  abbrev pub put_step : WorkflowExecution V → StepExecution V → ℕ → WorkflowExecution V
  put_step w s now = record w { steps = set w.steps w.current_step_index s; updated_at = now }

  unfoldable pub begin_found : WorkflowExecution V → StepExecution V → ℕ → ℕ → Call V String
  begin_found w step started now =
      if step_is_pending step.state
      then (
        put_step w
            (record step {
              state = running;
              attempts = (step.attempts + 1) % u32_mod;
              started_at = some started;
            })
            now,
        ok step.step_id,
      )
      else (w, err (invalid_transition step.step_id step.state "begin_step"))

  unfoldable pub begin_step : WorkflowExecution V → ℕ → ℕ → Call V String
  unfolding begin_found
  begin_step w started now =
      if is_running w.state
      then elim (get_elem? w.steps w.current_step_index) [
        | none ↦ (w, err out_of_bounds)
        | some step ↦ begin_found w step started now
      ]
      else (w, err not_running)

  -- The end of `complete_step`: past the last step the workflow is completed.
  unfoldable pub finish_if_last : WorkflowExecution V → WorkflowExecution V
  finish_if_last w =
      if leb (length w.steps) w.current_step_index then record w { state = completed } else w

  unfoldable pub complete_found :
      WorkflowExecution V → StepExecution V → V → ℕ → ℕ → Call V (Unit {0})
  unfolding finish_if_last
  complete_found w step output done now =
      if can_complete step.state
      then (
        finish_if_last (record w {
          steps =
              set w.steps w.current_step_index
                (record step { state = completed; output = some output; completed_at = some done });
          current_step_index = suc w.current_step_index;
          updated_at = now;
        }),
        ok tt,
      )
      else (w, err (invalid_transition step.step_id step.state "complete_step"))

  unfoldable pub complete_step : WorkflowExecution V → V → ℕ → ℕ → Call V (Unit {0})
  unfolding complete_found
  complete_step w output done now =
      if is_running w.state
      then elim (get_elem? w.steps w.current_step_index) [
        | none ↦ (w, err out_of_bounds)
        | some step ↦ complete_found w step output done now
      ]
      else (w, err not_running)

  -- `iter_mut().skip(n)`: a change of every element from the n-th on.
  unfoldable pub skip_from : ℕ → List (StepExecution V) → List (StepExecution V)
  skip_from n [] = []
  skip_from zero (s ∷ ss) = record s { state = skipped } ∷ skip_from zero ss
  skip_from (suc n) (s ∷ ss) = s ∷ skip_from n ss

  unfoldable pub fail_found :
      WorkflowExecution V → StepExecution V → String → ℕ → ℕ → ℕ → Call V (Unit {0})
  unfolding skip_from
  fail_found w step error retries done now =
      if step_is_running step.state
      then (if leb step.attempts retries
          then (put_step w (record step { state = pending; error = some error }) now, ok tt)
          else (
            record w {
              state = failed;
              steps = skip_from (suc w.current_step_index) (
                  set w.steps w.current_step_index
                    (record step { state = failed; error = some error; completed_at = some done }));
              updated_at = now;
            },
            ok tt,
          ))
      else (w, err (invalid_transition step.step_id step.state "fail_step"))

  unfoldable pub fail_step :
      WorkflowExecution V → String → WorkflowDefinition → ℕ → ℕ → Call V (Unit {0})
  unfolding fail_found max_retries
  fail_step w error definition done now =
      if is_running w.state
      then elim (get_elem? w.steps w.current_step_index) [
        | none ↦ (w, err out_of_bounds)
        | some step ↦ fail_found w step error (max_retries definition w.current_step_index) done now
      ]
      else (w, err not_running)

  unfoldable pub pause_found : WorkflowExecution V → StepExecution V → ℕ → Call V (Unit {0})
  pause_found w step now =
      if step_is_running step.state
      then (
        record w {
          state = paused;
          steps = set w.steps w.current_step_index (record step { state = waiting_for_signal });
          updated_at = now;
        },
        ok tt,
      )
      else (w, err (invalid_transition step.step_id step.state "pause_at_signal"))

  unfoldable pub pause_at_signal : WorkflowExecution V → ℕ → Call V (Unit {0})
  unfolding pause_found
  pause_at_signal w now =
      if is_running w.state
      then elim (get_elem? w.steps w.current_step_index) [
        | none ↦ (w, err out_of_bounds)
        | some step ↦ pause_found w step now
      ]
      else (w, err not_running)

  unfoldable pub resume_from_signal : WorkflowExecution V → V → ℕ → ℕ → Call V (Unit {0})
  unfolding complete_step
  resume_from_signal w output done now =
      if is_paused w.state
      then complete_step (record w { state = running }) output done now
      else (w, err not_running)

  unfoldable pub cancel_one : StepExecution V → StepExecution V
  cancel_one s = elim s.state [
    | pending ↦ record s { state = skipped }
    | waiting_for_signal ↦ record s { state = skipped }
    | _ ↦ s
  ]

  unfoldable pub cancel : WorkflowExecution V → ℕ → WorkflowExecution V
  unfolding cancel_one
  cancel w now = record w { state = cancelled; steps = map cancel_one w.steps; updated_at = now }

  unfoldable pub is_terminal : WorkflowExecution V → Bool
  is_terminal w = elim w.state [ completed ↦ true | failed ↦ true | cancelled ↦ true | _ ↦ false ]
