-- ===== src/Workflow/Progress.antt =====
-- What a workflow achieves: a run without failures completes it, a paused one always resumes, and
-- one with no steps never ends by itself.
use mathlib.Core.List.{append_assoc, map-append}
use mathlib.Core.Path.{ap₂, subst₂}
use cuartel.Common.{
  ℕ, zero, suc, ◌+◌, ◌<◌, ◌≡◌, refl, sym, ap, ◌∙◌, ◌≢◌, ◌⊎◌, inl, inr, true, false, Option, some,
  String, List, [], ◌∷◌, ◌++◌, map, get_elem?, set, take, length, All, length-set, length-map,
  arith, leb, if◌then◌else◌, ◌%◌,
}
use cuartel.Workflow.Defs.{
  WorkflowDefinition, StepExecution, StepState, WorkflowState, WorkflowExecution, ok, u32_mod,
}
use cuartel.Workflow.Exec.{
  new, new_step, start, begin_step, complete_step, fail_step, pause_at_signal, resume_from_signal,
}
use cuartel.Workflow.Layout.{
  IsFresh, IsWaiting, Slots, Slots-get, Slots-set, Slots-advance, All-map-new_step,
}
use cuartel.Workflow.Invariant.{IsValid, Shape-at, can_of_waiting}
use cuartel.Workflow.Runs.{Op, starts, begins, completes, cancels, exec, run}

-- A resume of a well-formed paused execution never fails: the waiting step is completed with the
-- signal's output, the index moves on, and no other step changes.
pub resume_succeeds :
    (V : Type 0) (w : WorkflowExecution V) (v : V) (done now : ℕ)
    → IsValid w
    → w.state ≡ WorkflowState.paused
    → let r = resume_from_signal w v done now in
      (s : StepExecution V) × (get_elem? w.steps w.current_step_index ≡ some s)
      × (r.1 ≡ ok tt)
      × (r.0.current_step_index ≡ suc w.current_step_index)
      × (r.0.steps
          ≡ set w.steps w.current_step_index
              (record s { state = StepState.completed; output = some v; completed_at = some done }))
unfolding resume_from_signal complete_step
resume_succeeds V w v done now h p =
    let (s, at, waiting) =
      Slots-get IsWaiting IsFresh w.current_step_index w.steps (Shape-at p h) in
    let can = can_of_waiting s.state waiting in (s, at, ground arith, ground arith, ground arith)

-- No call but a cancel changes the state of a running execution that has no steps.
exec_empty :
    (V : Type 0) (d : WorkflowDefinition) (w : WorkflowExecution V) (o : Op V)
    → ((now : ℕ) → o ≢ cancels now)
    → w.steps ≡ []
    → w.state ≡ WorkflowState.running
    → ((exec d w o).steps ≡ []) × ((exec d w o).state ≡ WorkflowState.running)
unfolding exec start begin_step complete_step fail_step pause_at_signal resume_from_signal
exec_empty V d w (cancels now) h e r = absurd (h now refl)
exec_empty V d w (starts now) h e r = ground arith
exec_empty V d w _ h e r = ground arith

-- A started execution of a definition with no steps stays in `Running` whatever is called on it,
-- as long as it is not cancelled: it is never completed.
pub empty_never_completes :
    (V : Type 0) (d : WorkflowDefinition) (w : WorkflowExecution V) (os : List (Op V))
    → All (λ o. (now : ℕ) → o ≢ cancels now) os
    → w.steps ≡ []
    → w.state ≡ WorkflowState.running
    → (run d w os).state ≡ WorkflowState.running
unfolding run
empty_never_completes V d w [] h e r = r
empty_never_completes V d w (o ∷ os) h e r =
    let (e', r') = exec_empty V d w o h.0 e r in empty_never_completes V d (exec d w o) os h.1 e' r'

-- The calls of a run in which each step is begun and completed, with these outputs.
abbrev pub script : {V : Type 0} → ℕ → List V → List (Op V)
script t [] = []
script t (v ∷ vs) = begins t t ∷ completes v t t ∷ script t vs

module _ {A : Type 0} where
  get_elem?-set_at :
      (xs : List A) (i : ℕ) (x y : A) → get_elem? xs i ≡ some x → get_elem? (set xs i y) i ≡ some y
  get_elem?-set_at [] i x y h = cc
  get_elem?-set_at (z ∷ xs) zero x y h = refl
  get_elem?-set_at (z ∷ xs) (suc i) x y h = get_elem?-set_at xs i x y h

  take-set : (xs : List A) (i : ℕ) (y : A) → take i (set xs i y) ≡ take i xs
  take-set [] i y = refl
  take-set (x ∷ xs) zero y = refl
  take-set (x ∷ xs) (suc i) y = ap (◌∷◌ x) (take-set xs i y)

  take-suc-set :
      (xs : List A) (i : ℕ) (x y : A)
      → get_elem? xs i ≡ some x
      → take (suc i) (set xs i y) ≡ take i xs ++ y ∷ []
  take-suc-set [] i x y h = cc
  take-suc-set (z ∷ xs) zero x y h = refl
  take-suc-set (z ∷ xs) (suc i) x y h = ap (◌∷◌ z) (take-suc-set xs i x y h)

  take-length : (xs : List A) → take (length xs) xs ≡ xs
  take-length [] = refl
  take-length (x ∷ xs) = ap (◌∷◌ x) (take-length xs)

  take-full : (n : ℕ) (xs : List A) → n ≡ length xs → take n xs ≡ xs
  take-full n xs e = ap (λ m. take m xs) e ∙ take-length xs

module _ {V : Type 0} where
  outputs : List (StepExecution V) → List (Option V)
  outputs ss = map (λ s. s.output) ss

  -- A running execution whose steps up to the index gave these outputs.
  record At (us : List V) (w : WorkflowExecution V) : Type 0 where
    state : w.state ≡ WorkflowState.running
    slots : Slots IsFresh IsFresh w.current_step_index w.steps
    given : outputs (take w.current_step_index w.steps) ≡ map some us

  -- An execution that completed with these outputs, of as many steps as there were.
  record Ended (us : List V) (n : ℕ) (w : WorkflowExecution V) : Type 0 where
    state : w.state ≡ WorkflowState.completed
    given : outputs w.steps ≡ map some us
    size : length w.steps ≡ n

  begun : StepExecution V → ℕ → StepExecution V
  begun s t = record s {
    state = StepState.running;
    attempts = (s.attempts + 1) % u32_mod;
    started_at = some t;
  }

  done : StepExecution V → V → ℕ → StepExecution V
  done s v t = record s { state = StepState.completed; output = some v; completed_at = some t }

  -- A step that is begun and completed.
  one_step :
      (w : WorkflowExecution V) (v : V) (t : ℕ) (s : StepExecution V)
      → w.state ≡ WorkflowState.running
      → get_elem? w.steps w.current_step_index ≡ some s
      → s.state ≡ StepState.pending
      → let ss =
          set
            (set w.steps w.current_step_index (begun s t))
            w.current_step_index
            (done (begun s t) v t) in
        let w' = (complete_step (begin_step w t t).0 v t t).0 in
        (w'.steps ≡ ss)
        × (w'.current_step_index ≡ suc w.current_step_index)
        × (w'.state ≡ (
            if leb (length ss) (suc w.current_step_index)
            then WorkflowState.completed
            else WorkflowState.running))
  unfolding begin_step complete_step begun done
  one_step w v t s r at p =
      let again = get_elem?-set_at w.steps w.current_step_index s (begun s t) at in
      (ground (arith, again), ground (arith, again), ground (arith, again))

  outputs-concat :
      (xs : List (StepExecution V)) (s : StepExecution V) (us : List V) (v : V)
      → outputs xs ≡ map some us
      → s.output ≡ some v
      → outputs (xs ++ s ∷ []) ≡ map some (us ++ v ∷ [])
  unfolding outputs
  outputs-concat xs s us v e h =
      map-append _ xs (s ∷ [])
      ∙ ap (λ l. l ++ s.output ∷ []) e
      ∙ ap (λ o. map some us ++ o ∷ []) h
      ∙ sym (map-append some us (v ∷ []))

  full :
      (ss : List (StepExecution V)) (i : ℕ) (s : StepExecution V)
      → length ss ≡ suc i
      → leb (length (set ss i s)) (suc i) ≡ true
  full ss i s e = ground (arith, length-set ss i s)

  not_full :
      (ss : List (StepExecution V)) (i : ℕ) (s : StepExecution V)
      → suc i < length ss
      → leb (length (set ss i s)) (suc i) ≡ false
  not_full ss i s e = ground (arith, length-set ss i s)

  abbrev IsBegun : StepExecution V → Type 0
  IsBegun s = s.state ≡ StepState.running

  -- One more step: the execution goes on at the next step, or has completed at the last one.
  At-step :
      (w : WorkflowExecution V) (us : List V) (v : V) (t : ℕ)
      → At us w
      → let w' = (complete_step (begin_step w t t).0 v t t).0 in
        ((suc w.current_step_index < length w.steps)
          × At (us ++ v ∷ []) w'
          × (w'.current_step_index ≡ suc w.current_step_index)
          × (length w'.steps ≡ length w.steps))
        ⊎ ((suc w.current_step_index ≡ length w.steps) × Ended (us ++ v ∷ []) (length w.steps) w')
  unfolding outputs begun done
  At-step w us v t a =
      let i = w.current_step_index in
      let (s, at, fresh) = Slots-get IsFresh IsFresh i w.steps a.slots in
      let s1 = begun s t in
      let s2 = done s1 v t in
      let ss = set w.steps i s1 in
      let (steps, index, state) = one_step w v t s a.state at fresh.0 in
      let size : length (set ss i s2) ≡ length w.steps =
        length-set ss i s2 ∙ length-set w.steps i s1 in
      let given : outputs (take (suc i) (set ss i s2)) ≡ map some (us ++ v ∷ []) =
        ap outputs (take-suc-set ss i s1 s2 (get_elem?-set_at w.steps i s s1 at))
        ∙ outputs-concat (take i ss) s2 us v (ap outputs (take-set w.steps i s1) ∙ a.given) refl in
      let slots = Slots-set IsFresh IsFresh IsBegun i w.steps s1 refl a.slots in
      elim (Slots-advance IsBegun IsFresh i ss s2 refl slots) [
        | inl (last, all_done) ↦ inr (
          sym last ∙ length-set w.steps i s1,
          record {
            state = state ∙ rw (full ss i s2 last);
            given =
                ap outputs (
                  steps
                  ∙ sym (take-full (suc i) (set ss i s2) (sym last ∙ sym (length-set ss i s2))))
                ∙ given;
            size = ap length steps ∙ size;
          },
        )
        | inr (more, rest) ↦ inl (
          omega (arith, length-set w.steps i s1),
          record {
            state = state ∙ rw (not_full ss i s2 more);
            slots = subst₂ (Slots IsFresh IsFresh) (sym index) (sym steps) rest;
            given = ap₂ (λ n l. outputs (take n l)) index steps ∙ given;
          },
          index,
          ap length steps ∙ size,
        )
      ]

  script-Ended :
      (d : WorkflowDefinition) (w : WorkflowExecution V) (us : List V) (v : V) (vs : List V) (t : ℕ)
      → At us w
      → w.current_step_index + suc (length vs) ≡ length w.steps
      → Ended (us ++ v ∷ vs) (length w.steps) (run d w (script t (v ∷ vs)))
  unfolding run exec
  script-Ended d w us v [] t a e = elim (At-step w us v t a) [
    | inl (more, _, _, _) ↦ absurd (omega arith)
    | inr (last, ended) ↦ ended
  ]
  script-Ended d w us v (u ∷ vs) t a e = elim (At-step w us v t a) [
    | inl (more, next, index, size) ↦
        rw (← size, ← append_assoc us (v ∷ []) (u ∷ vs))
          (script-Ended d (complete_step (begin_step w t t).0 v t t).0 (us ++ v ∷ []) u vs t next
            (omega (arith, size, index)))
    | inr (last, ended) ↦ absurd (omega arith)
  ]

fresh_At :
    (V : Type 0) (id : String) (d : WorkflowDefinition) (now t : ℕ)
    → 0 < length d.steps
    → At [] (start (new {V = V} id d now) t).0
unfolding start new outputs
fresh_At V id d now t h = record {
  state = refl;
  slots = go _ (All-map-new_step V d.steps) (omega (arith, length-map new_step d.steps));
  given = refl;
}
  where
    go : (ss : List (StepExecution V)) → All IsFresh ss → 0 < length ss → Slots IsFresh IsFresh 0 ss
    go [] f h = absurd (omega arith)
    go (s ∷ ss) f h = f

-- A workflow with at least one step, started and then given one begin and one completion for each
-- step, ends in `Completed`, and the outputs of its steps are the given ones in order.
pub run_to_completion :
    (V : Type 0) (id : String) (d : WorkflowDefinition) (now t : ℕ) (v : V) (vs : List V)
    → suc (length vs) ≡ length d.steps
    → let w = run d (new {V = V} id d now) (starts t ∷ script t (v ∷ vs)) in
      (w.state ≡ WorkflowState.completed) × (map (λ s. s.output) w.steps ≡ map some (v ∷ vs))
unfolding run exec outputs
run_to_completion V id d now t v vs e =
    let ended =
      script-Ended d _ [] v vs t (fresh_At V id d now t (omega arith))
        (unfold start new in omega (arith, length-map new_step d.steps)) in
    (ended.state, ended.given)
