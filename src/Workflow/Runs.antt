-- ===== src/Workflow/Runs.antt =====
-- Sequences of calls on one execution, with the definition that it was made from.
use cuartel.Common.{ℕ, String, List, [], ◌∷◌}
use cuartel.Workflow.Defs.{WorkflowDefinition, WorkflowExecution}
use cuartel.Workflow.Exec.{
  new, start, begin_step, complete_step, fail_step, pause_at_signal, resume_from_signal, cancel,
}
use cuartel.Workflow.Invariant.{
  IsValid, new-IsValid, start-IsValid, begin_step-IsValid, complete_step-IsValid, fail_step-IsValid,
  pause_at_signal-IsValid, resume_from_signal-IsValid, cancel-IsValid,
}

-- One call. The numbers are the times that `Utc::now()` returns in it.
pub data Op (V : Type 0) : Type 0 where
  starts : ℕ → Op V
  begins : ℕ → ℕ → Op V
  completes : V → ℕ → ℕ → Op V
  fails : String → ℕ → ℕ → Op V
  pauses : ℕ → Op V
  resumes : V → ℕ → ℕ → Op V
  cancels : ℕ → Op V

module _ {V : Type 0} where
  -- The execution after a call; an error that the caller ignores changes nothing but the state that
  -- `resume_from_signal` may have set.
  unfoldable pub exec : WorkflowDefinition → WorkflowExecution V → Op V → WorkflowExecution V
  exec d w (starts now) = (start w now).0
  exec d w (begins started now) = (begin_step w started now).0
  exec d w (completes v done now) = (complete_step w v done now).0
  exec d w (fails message done now) = (fail_step w message d done now).0
  exec d w (pauses now) = (pause_at_signal w now).0
  exec d w (resumes v done now) = (resume_from_signal w v done now).0
  exec d w (cancels now) = cancel w now

  unfoldable pub run : WorkflowDefinition → WorkflowExecution V → List (Op V) → WorkflowExecution V
  run d w [] = w
  run d w (o ∷ os) = run d (exec d w o) os

  pub exec-IsValid :
      (d : WorkflowDefinition) (w : WorkflowExecution V) (o : Op V)
      → IsValid w
      → IsValid (exec d w o)
  unfolding exec
  exec-IsValid d w (starts now) h = start-IsValid w now h
  exec-IsValid d w (begins started now) h = begin_step-IsValid w started now h
  exec-IsValid d w (completes v done now) h = complete_step-IsValid w v done now h
  exec-IsValid d w (fails message done now) h = fail_step-IsValid w message d done now h
  exec-IsValid d w (pauses now) h = pause_at_signal-IsValid w now h
  exec-IsValid d w (resumes v done now) h = resume_from_signal-IsValid w v done now h
  exec-IsValid d w (cancels now) h = cancel-IsValid w now

  run-IsValid :
      (d : WorkflowDefinition) (w : WorkflowExecution V) (os : List (Op V))
      → IsValid w
      → IsValid (run d w os)
  unfolding run
  run-IsValid d w [] h = h
  run-IsValid d w (o ∷ os) h = run-IsValid d (exec d w o) os (exec-IsValid d w o h)

-- After any calls in any order, refused ones included, an execution is well formed: the steps before
-- the index are completed; in a running one the current step is pending or running and the later
-- ones were never begun (or there are no steps); in a paused one the current step waits for its
-- signal; a completed one has every step completed; a failed one has its current step failed and
-- all later ones skipped; in a cancelled one no step is pending or waits for a signal.
pub run-new-IsValid :
    (V : Type 0) (id : String) (d : WorkflowDefinition) (now : ℕ) (os : List (Op V))
    → IsValid (run d (new id d now) os)
run-new-IsValid V id d now os = run-IsValid d (new id d now) os (new-IsValid V id d now)
