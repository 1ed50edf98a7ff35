-- ===== src/Workflow/Retries.antt =====
-- How often a step is attempted.
use cuartel.Common.{
  ℕ, zero, suc, ◌+◌, ◌≤◌, ◌<◌, ◌≡◌, inl, inr, none, some, String, List, [], ◌∷◌, map, get_elem?,
  set, arith, Bool-cases, Option-cases, leb, All,
}
use cuartel.Workflow.Defs.{
  WorkflowStep, WorkflowDefinition, StepExecution, StepState, WorkflowState, WorkflowExecution,
  is_running, step_is_pending, step_is_running, max_retries, u32_mod,
}
use cuartel.Workflow.Exec.{
  new, new_step, start, begin_found, begin_step, complete_found, complete_step, skip_from,
  fail_found, fail_step, pause_at_signal, resume_from_signal, cancel_one, cancel,
}
use cuartel.Workflow.Runs.{
  Op, starts, begins, completes, fails, pauses, resumes, cancels, exec, run,
}

abbrev retries_at : List WorkflowStep → ℕ → ℕ
retries_at ds i = elim (get_elem? ds i) [ none ↦ 0 | some d ↦ d.retry_count ]

-- No step has so many retries that the count of its attempts would wrap.
abbrev pub HasRoom : WorkflowDefinition → Type 0
HasRoom d = All (λ s. s.retry_count + 1 < u32_mod) d.steps

room_at :
    (ds : List WorkflowStep) (i : ℕ)
    → All (λ s. s.retry_count + 1 < u32_mod) ds
    → retries_at ds i + 1 < u32_mod
room_at [] i h = omega arith
room_at (d ∷ ds) zero h = h.0
room_at (d ∷ ds) (suc i) h = room_at ds i h.1

module _ {V : Type 0} where
  -- A step was attempted at most once more than it has retries, and a pending one has an attempt left.
  pub record Spent (r : ℕ) (s : StepExecution V) : Type 0 where
    pub within : s.attempts ≤ r + 1
    pub one_left : s.state ≡ StepState.pending → s.attempts ≤ r

  abbrev pub Bounded : List WorkflowStep → List (StepExecution V) → Type 0
  Bounded [] [] = Unit
  Bounded (d ∷ ds) (s ∷ ss) = Spent d.retry_count s × Bounded ds ss
  Bounded [] (s ∷ ss) = ⊥
  Bounded (d ∷ ds) [] = ⊥

  Bounded-get :
      (ds : List WorkflowStep) (ss : List (StepExecution V)) (i : ℕ) (s : StepExecution V)
      → Bounded ds ss
      → get_elem? ss i ≡ some s
      → Spent (retries_at ds i) s
  Bounded-get [] [] i s b e = cc
  Bounded-get [] (x ∷ ss) i s b e = elim b [ ]
  Bounded-get (d ∷ ds) [] i s b e = elim b [ ]
  Bounded-get (d ∷ ds) (x ∷ ss) zero s b e = ground (arith, b.0)
  Bounded-get (d ∷ ds) (x ∷ ss) (suc i) s b e = Bounded-get ds ss i s b.1 e

  Bounded-set :
      (ds : List WorkflowStep) (ss : List (StepExecution V)) (i : ℕ) (s : StepExecution V)
      → Bounded ds ss
      → Spent (retries_at ds i) s
      → Bounded ds (set ss i s)
  Bounded-set [] [] i s b h = tt
  Bounded-set [] (x ∷ ss) i s b h = elim b [ ]
  Bounded-set (d ∷ ds) [] i s b h = elim b [ ]
  Bounded-set (d ∷ ds) (x ∷ ss) zero s b h = (h, b.1)
  Bounded-set (d ∷ ds) (x ∷ ss) (suc i) s b h = (b.0, Bounded-set ds ss i s b.1 h)

  Bounded-map :
      (k : StepExecution V → StepExecution V)
      → ((r : ℕ) (s : StepExecution V) → Spent r s → Spent r (k s))
      → (ds : List WorkflowStep) (ss : List (StepExecution V)) → Bounded ds ss
      → Bounded ds (map k ss)
  Bounded-map k f [] [] b = tt
  Bounded-map k f [] (x ∷ ss) b = elim b [ ]
  Bounded-map k f (d ∷ ds) [] b = elim b [ ]
  Bounded-map k f (d ∷ ds) (x ∷ ss) b = (f d.retry_count x b.0, Bounded-map k f ds ss b.1)

  Bounded-skip_from :
      (n : ℕ) (ds : List WorkflowStep) (ss : List (StepExecution V))
      → Bounded ds ss
      → Bounded ds (skip_from n ss)
  unfolding skip_from
  Bounded-skip_from n [] [] b = tt
  Bounded-skip_from n [] (x ∷ ss) b = elim b [ ]
  Bounded-skip_from n (d ∷ ds) [] b = elim b [ ]
  Bounded-skip_from zero (d ∷ ds) (x ∷ ss) b =
      (record { within = b.0.within; one_left = λ e. cc }, Bounded-skip_from zero ds ss b.1)
  Bounded-skip_from (suc n) (d ∷ ds) (x ∷ ss) b = (b.0, Bounded-skip_from n ds ss b.1)

  module _ (d : WorkflowDefinition) (room : HasRoom d) (w : WorkflowExecution V)
      (b : Bounded d.steps w.steps) where
    begin_step-Bounded : (started now : ℕ) → Bounded d.steps (begin_step w started now).0.steps
    unfolding begin_step
    begin_step-Bounded started now = elim (Option-cases (get_elem? w.steps w.current_step_index)) [
      | inl missing ↦ rw (missing, begin_step) (ground arith)
      | inr (s, at) ↦
          let spent = Bounded-get d.steps w.steps w.current_step_index s b at in
          let fits = room_at d.steps w.current_step_index room in
          elim (Bool-cases (is_running w.state)) [
            | inr n ↦ rw (n, begin_step) b
            | inl r ↦
                rw (r, at, begin_step)
                  (elim (Bool-cases (step_is_pending s.state)) [
                    | inr n ↦ rw (n, begin_found) b
                    | inl p ↦
                        rw (p, begin_found)
                          (Bounded-set d.steps w.steps _ _ b (record {
                            within = ground (arith, spent.one_left);
                            one_left = λ e. cc;
                          }))
                  ])
          ]
    ]

    complete_found-Bounded :
        (s : StepExecution V) (v : V) (done now : ℕ)
        → Spent (retries_at d.steps w.current_step_index) s
        → Bounded d.steps (complete_found w s v done now).0.steps
    unfolding complete_found
    complete_found-Bounded s v done now spent =
        let after =
          Bounded-set d.steps w.steps w.current_step_index
            (record s { state = StepState.completed; output = some v; completed_at = some done }) b
            (record { within = spent.within; one_left = λ e. cc }) in
        ground (arith, after)

    complete_step-Bounded :
        (v : V) (done now : ℕ) → Bounded d.steps (complete_step w v done now).0.steps
    unfolding complete_step
    complete_step-Bounded v done now =
        elim (Option-cases (get_elem? w.steps w.current_step_index)) [
          | inl missing ↦ rw (missing, complete_step) (ground arith)
          | inr (s, at) ↦
              let after =
                complete_found-Bounded s v done now
                  (Bounded-get d.steps w.steps w.current_step_index s b at) in
              rw (at, complete_step)
                (elim (Bool-cases (is_running w.state)) [
                  | inr n ↦ rw (n, complete_step) b
                  | inl r ↦ rw (r, complete_step) after
                ])
        ]

    pause_at_signal-Bounded : (now : ℕ) → Bounded d.steps (pause_at_signal w now).0.steps
    unfolding pause_at_signal
    pause_at_signal-Bounded now = elim (Option-cases (get_elem? w.steps w.current_step_index)) [
      | inl missing ↦ rw (missing, pause_at_signal) (ground arith)
      | inr (s, at) ↦
          let spent = Bounded-get d.steps w.steps w.current_step_index s b at in
          let after =
            Bounded-set d.steps w.steps w.current_step_index
              (record s { state = StepState.waiting_for_signal }) b
              (record { within = spent.within; one_left = λ e. cc }) in
          rw (at, pause_at_signal) (ground (arith, after))
    ]

    fail_found-Bounded :
        (s : StepExecution V) (message : String) (done now : ℕ)
        → Spent (retries_at d.steps w.current_step_index) s
        → Bounded d.steps
            (fail_found w s message (max_retries d w.current_step_index) done now).0.steps
    unfolding fail_found max_retries
    fail_found-Bounded s message done now spent = elim (Bool-cases (step_is_running s.state)) [
      | inr n ↦ rw (n, fail_found) b
      | inl p ↦ elim (Bool-cases (leb s.attempts (retries_at d.steps w.current_step_index))) [
        | inl again ↦
            rw (p, again, fail_found)
              (Bounded-set d.steps w.steps _ _ b
                (record { within = spent.within; one_left = λ e. ground arith }))
        | inr over ↦
            rw (p, over, fail_found)
              (Bounded-skip_from _ d.steps _ (
                Bounded-set d.steps w.steps _ _ b
                  (record { within = spent.within; one_left = λ e. cc })))
      ]
    ]

    fail_step-Bounded :
        (message : String) (done now : ℕ) → Bounded d.steps (fail_step w message d done now).0.steps
    unfolding fail_step
    fail_step-Bounded message done now =
        elim (Option-cases (get_elem? w.steps w.current_step_index)) [
          | inl missing ↦ rw (missing, fail_step) (ground arith)
          | inr (s, at) ↦
              let after =
                fail_found-Bounded s message done now
                  (Bounded-get d.steps w.steps w.current_step_index s b at) in
              rw (at, fail_step)
                (elim (Bool-cases (is_running w.state)) [
                  | inr n ↦ rw (n, fail_step) b
                  | inl r ↦ rw (r, fail_step) after
                ])
        ]

  cancel_one-Spent : (r : ℕ) (s : StepExecution V) → Spent r s → Spent r (cancel_one s)
  unfolding cancel_one
  cancel_one-Spent r s h = ground arith

  exec-Bounded :
      (d : WorkflowDefinition) (room : HasRoom d) (w : WorkflowExecution V) (o : Op V)
      → Bounded d.steps w.steps
      → Bounded d.steps (exec d w o).steps
  unfolding exec start resume_from_signal cancel
  exec-Bounded d room w (starts now) b = ground arith
  exec-Bounded d room w (begins started now) b = begin_step-Bounded d room w b started now
  exec-Bounded d room w (completes v done now) b = complete_step-Bounded d room w b v done now
  exec-Bounded d room w (fails message done now) b = fail_step-Bounded d room w b message done now
  exec-Bounded d room w (pauses now) b = pause_at_signal-Bounded d room w b now
  exec-Bounded d room w (resumes v done now) b = ground (
    arith,
    complete_step-Bounded d room (record w { state = WorkflowState.running }) b v done now,
  )
  exec-Bounded d room w (cancels now) b = Bounded-map cancel_one cancel_one-Spent d.steps w.steps b

  run-Bounded :
      (d : WorkflowDefinition) (room : HasRoom d) (w : WorkflowExecution V) (os : List (Op V))
      → Bounded d.steps w.steps
      → Bounded d.steps (run d w os).steps
  unfolding run
  run-Bounded d room w [] b = b
  run-Bounded d room w (o ∷ os) b = run-Bounded d room (exec d w o) os (exec-Bounded d room w o b)

new-Bounded : (V : Type 0) (ds : List WorkflowStep) → Bounded ds (map (new_step {V = V}) ds)
unfolding new_step
new-Bounded V [] = tt
new-Bounded V (d ∷ ds) =
    (record { within = omega arith; one_left = λ e. omega arith }, new-Bounded V ds)

-- If no retry count is within one of the largest u32, then after any calls on a new execution each
-- step was attempted at most once more than the retries that its definition grants, and a pending
-- step has an attempt left.
pub run-new-Bounded :
    (V : Type 0) (id : String) (d : WorkflowDefinition) (now : ℕ) (os : List (Op V))
    → HasRoom d
    → Bounded d.steps (run d (new id d now) os).steps
unfolding new
run-new-Bounded V id d now os room = run-Bounded d room _ os (new-Bounded V d.steps)
