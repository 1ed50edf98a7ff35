-- ===== src/Workflow/Invariant.antt =====
-- The well-formedness of a workflow's execution, and that every method keeps it.
use cuartel.Common.{
  ℕ, suc, ◌<◌, ◌≡◌, refl, sym, subst, ◌∙◌, ◌≢◌, ◌⊎◌, inl, inr, true, false, none, some, String,
  List, [], ◌∷◌, map, get_elem?, set, length, length-set, All, arith, Bool-cases, leb,
}
use cuartel.Workflow.Defs.{
  WorkflowDefinition, StepExecution, StepState, WorkflowState, WorkflowExecution, is_pending,
  is_running, is_paused, step_is_pending, step_is_running, can_complete,
}
use cuartel.Workflow.Exec.{
  new, start, begin_found, begin_step, complete_found, complete_step, fail_found, fail_step,
  pause_found, pause_at_signal, resume_from_signal, cancel_one, cancel,
}
use cuartel.Workflow.Layout.{
  IsCompleted, IsFresh, IsActive, IsWaiting, IsFailed, IsSkipped, Slots, Slots-get, Slots-set,
  Slots-advance, Slots-mono, Slots-skip_from, All-map-new_step,
}

running_of : (s : WorkflowState) → is_running s ≡ true → s ≡ WorkflowState.running
running_of s h = ground arith

paused_of : (s : WorkflowState) → is_paused s ≡ true → s ≡ WorkflowState.paused
paused_of s h = ground arith

pending_of : (s : WorkflowState) → is_pending s ≡ true → s ≡ WorkflowState.pending
pending_of s h = ground arith

pub can_of_waiting : (s : StepState) → s ≡ StepState.waiting_for_signal → can_complete s ≡ true
can_of_waiting s e = ground arith

module _ {V : Type 0} where
  -- A step that nothing will run any more.
  abbrev pub IsSettled : StepExecution V → Type 0
  IsSettled s = (s.state ≢ StepState.pending) × (s.state ≢ StepState.waiting_for_signal)

  -- What the index and the steps look like in each state of the workflow.
  abbrev pub Shape : WorkflowState → ℕ → List (StepExecution V) → Type 0
  Shape WorkflowState.pending i ss = (i ≡ 0) × All IsFresh ss
  Shape WorkflowState.running i ss = ((i ≡ 0) × (ss ≡ [])) ⊎ Slots IsActive IsFresh i ss
  Shape WorkflowState.paused i ss = Slots IsWaiting IsFresh i ss
  Shape WorkflowState.completed i ss = (i ≡ length ss) × All IsCompleted ss
  Shape WorkflowState.failed i ss = Slots IsFailed IsSkipped i ss
  Shape WorkflowState.cancelled i ss = All IsSettled ss

  pub record IsValid (w : WorkflowExecution V) : Type 0 where
    pub shape : Shape w.state w.current_step_index w.steps

  IsValid-at :
      {w : WorkflowExecution V} {st : WorkflowState}
      → w.state ≡ st
      → Shape st w.current_step_index w.steps
      → IsValid w
  IsValid-at {w} e h = record {
    shape = subst (λ x. Shape x w.current_step_index w.steps) (sym e) h;
  }

  pub Shape-at :
      {w : WorkflowExecution V} {st : WorkflowState}
      → w.state ≡ st
      → IsValid w
      → Shape st w.current_step_index w.steps
  Shape-at {w} e h = subst (λ x. Shape x w.current_step_index w.steps) e h.shape

  IsFresh-Slots :
      (ss : List (StepExecution V)) → All IsFresh ss → (ss ≡ []) ⊎ Slots IsActive IsFresh 0 ss
  IsFresh-Slots [] h = inl refl
  IsFresh-Slots (s ∷ ss) h = inr (inl h.0.0, h.1)

  pub start-IsValid : (w : WorkflowExecution V) (now : ℕ) → IsValid w → IsValid (start w now).0
  unfolding start
  start-IsValid w now h = elim (Bool-cases (is_pending w.state)) [
    | inl p ↦
        let (zero_index, fresh) = Shape-at (pending_of w.state p) h in
        rw (p, start)
          (IsValid-at refl (elim (IsFresh-Slots w.steps fresh) [
            | inl none_left ↦ inl (zero_index, none_left)
            | inr slots ↦ inr (subst (λ i. Slots IsActive IsFresh i w.steps) (sym zero_index) slots)
          ]))
    | inr n ↦ rw (n, start) h
  ]

  -- In a running execution the current step is at hand unless there are no steps at all.
  running_cases :
      (w : WorkflowExecution V)
      → IsValid w
      → is_running w.state ≡ true
      → (get_elem? w.steps w.current_step_index ≡ none)
        ⊎ ((s : StepExecution V) × (get_elem? w.steps w.current_step_index ≡ some s)
            × IsActive s
            × Slots IsActive IsFresh w.current_step_index w.steps)
  running_cases w h r = elim (Shape-at (running_of w.state r) h) [
    | inl (e, none_left) ↦ inl (rw none_left refl)
    | inr slots ↦
        let (s, at, active) = Slots-get IsActive IsFresh w.current_step_index w.steps slots in
        inr (s, at, active, slots)
  ]

  begin_found-IsValid :
      (w : WorkflowExecution V) (s : StepExecution V) (started now : ℕ)
      → IsValid w
      → is_running w.state ≡ true
      → Slots IsActive IsFresh w.current_step_index w.steps
      → IsValid (begin_found w s started now).0
  unfolding begin_found
  begin_found-IsValid w s started now h r slots = elim (Bool-cases (step_is_pending s.state)) [
    | inl p ↦
        rw (p, begin_found)
          (IsValid-at (running_of w.state r)
            (inr (Slots-set IsActive IsFresh IsActive _ w.steps _ (inr refl) slots)))
    | inr n ↦ rw (n, begin_found) h
  ]

  pub begin_step-IsValid :
      (w : WorkflowExecution V) (started now : ℕ) → IsValid w → IsValid (begin_step w started now).0
  unfolding begin_step
  begin_step-IsValid w started now h = elim (Bool-cases (is_running w.state)) [
    | inl r ↦ elim (running_cases w h r) [
      | inl missing ↦ rw (r, missing, begin_step) h
      | inr (s, at, active, slots) ↦
          rw (r, at, begin_step) (begin_found-IsValid w s started now h r slots)
    ]
    | inr n ↦ rw (n, begin_step) h
  ]

  -- Completing the current step, whatever it was waiting for.
  complete_done :
      (C : StepExecution V → Type 0) (w : WorkflowExecution V) (s : StepExecution V) (v : V)
      (done now : ℕ)
      → w.state ≡ WorkflowState.running
      → can_complete s.state ≡ true
      → Slots C IsFresh w.current_step_index w.steps
      → IsValid (complete_found w s v done now).0
  unfolding complete_found
  complete_done C w s v done now r can slots =
      elim (Slots-advance C IsFresh w.current_step_index w.steps
        (record s { state = StepState.completed; output = some v; completed_at = some done }) refl
        slots) [
          | inl (last, all_done) ↦
              rw (can, last_test _ last)
                (IsValid-at refl (sym (length-set w.steps _ _ ∙ last), all_done))
          | inr (more, rest) ↦
              rw (can, more_test _ more)
                (IsValid-at r (
                  inr (
                    Slots-mono IsFresh IsFresh IsActive IsFresh _ _ (λ x f. inl f.0) (λ xs f. f)
                      rest)))
        ]
    where
      last_test :
          (x : StepExecution V)
          → length w.steps ≡ suc w.current_step_index
          → leb (length (set w.steps w.current_step_index x)) (suc w.current_step_index) ≡ true
      last_test x e = ground (arith, length-set w.steps w.current_step_index x)

      more_test :
          (x : StepExecution V)
          → suc w.current_step_index < length w.steps
          → leb (length (set w.steps w.current_step_index x)) (suc w.current_step_index) ≡ false
      more_test x e = ground (arith, length-set w.steps w.current_step_index x)

  pub complete_step-IsValid :
      (w : WorkflowExecution V) (v : V) (done now : ℕ)
      → IsValid w
      → IsValid (complete_step w v done now).0
  unfolding complete_step
  complete_step-IsValid w v done now h = elim (Bool-cases (is_running w.state)) [
    | inl r ↦ elim (running_cases w h r) [
      | inl missing ↦ rw (r, missing, complete_step) h
      | inr (s, at, active, slots) ↦
          rw (r, at, complete_step)
            (elim (Bool-cases (can_complete s.state)) [
              | inl can ↦ complete_done IsActive w s v done now (running_of w.state r) can slots
              | inr cannot ↦ rw (cannot, complete_found) h
            ])
    ]
    | inr n ↦ rw (n, complete_step) h
  ]

  pub resume_from_signal-IsValid :
      (w : WorkflowExecution V) (v : V) (done now : ℕ)
      → IsValid w
      → IsValid (resume_from_signal w v done now).0
  unfolding resume_from_signal complete_step
  resume_from_signal-IsValid w v done now h = elim (Bool-cases (is_paused w.state)) [
    | inl p ↦
        let slots = Shape-at (paused_of w.state p) h in
        let (s, at, waiting) = Slots-get IsWaiting IsFresh w.current_step_index w.steps slots in
        rw (p, at, resume_from_signal)
          (complete_done IsWaiting (record w { state = WorkflowState.running }) s v done now refl
            (can_of_waiting s.state waiting) slots)
    | inr n ↦ rw (n, resume_from_signal) h
  ]

  pub pause_at_signal-IsValid :
      (w : WorkflowExecution V) (now : ℕ) → IsValid w → IsValid (pause_at_signal w now).0
  unfolding pause_at_signal
  pause_at_signal-IsValid w now h = elim (Bool-cases (is_running w.state)) [
    | inl r ↦ elim (running_cases w h r) [
      | inl missing ↦ rw (r, missing, pause_at_signal) h
      | inr (s, at, active, slots) ↦
          rw (r, at, pause_at_signal)
            (elim (Bool-cases (step_is_running s.state)) [
              | inl p ↦
                  rw (p, pause_found)
                    (IsValid-at refl (Slots-set IsActive IsFresh IsWaiting _ w.steps _ refl slots))
              | inr n ↦ rw (n, pause_found) h
            ])
    ]
    | inr n ↦ rw (n, pause_at_signal) h
  ]

  fail_found-IsValid :
      (w : WorkflowExecution V) (s : StepExecution V) (message : String) (retries done now : ℕ)
      → IsValid w
      → is_running w.state ≡ true
      → Slots IsActive IsFresh w.current_step_index w.steps
      → IsValid (fail_found w s message retries done now).0
  unfolding fail_found
  fail_found-IsValid w s message retries done now h r slots =
      elim (Bool-cases (step_is_running s.state)) [
        | inl p ↦ elim (Bool-cases (leb s.attempts retries)) [
          | inl again ↦
              rw (p, again, fail_found)
                (IsValid-at (running_of w.state r)
                  (inr (Slots-set IsActive IsFresh IsActive _ w.steps _ (inl refl) slots)))
          | inr spent ↦
              rw (p, spent, fail_found)
                (IsValid-at refl (
                  Slots-skip_from IsFailed IsFresh _ _
                    (Slots-set IsActive IsFresh IsFailed _ w.steps _ refl slots)))
        ]
        | inr n ↦ rw (n, fail_found) h
      ]

  pub fail_step-IsValid :
      (w : WorkflowExecution V) (message : String) (d : WorkflowDefinition) (done now : ℕ)
      → IsValid w
      → IsValid (fail_step w message d done now).0
  unfolding fail_step
  fail_step-IsValid w message d done now h = elim (Bool-cases (is_running w.state)) [
    | inl r ↦ elim (running_cases w h r) [
      | inl missing ↦ rw (r, missing, fail_step) h
      | inr (s, at, active, slots) ↦
          rw (r, at, fail_step) (fail_found-IsValid w s message _ done now h r slots)
    ]
    | inr n ↦ rw (n, fail_step) h
  ]

  cancel_one-settles : (s : StepExecution V) → IsSettled (cancel_one s)
  unfolding cancel_one
  cancel_one-settles s = ground arith

  map-cancel_one : (ss : List (StepExecution V)) → All IsSettled (map cancel_one ss)
  map-cancel_one [] = tt
  map-cancel_one (s ∷ ss) = (cancel_one-settles s, map-cancel_one ss)

  pub cancel-IsValid : (w : WorkflowExecution V) (now : ℕ) → IsValid (cancel w now)
  unfolding cancel
  cancel-IsValid w now = IsValid-at refl (map-cancel_one w.steps)

pub new-IsValid :
    (V : Type 0) (id : String) (d : WorkflowDefinition) (now : ℕ) → IsValid (new {V = V} id d now)
unfolding new
new-IsValid V id d now = IsValid-at refl (refl, All-map-new_step V d.steps)
