-- ===== src/Workflow/Layout.antt =====
-- The shape of a workflow's steps: completed ones before the index, the current one at it, and the
-- ones to come behind it.
use cuartel.Common.{
  ℕ, zero, suc, ◌<◌, ◌≡◌, refl, ◌⊎◌, inl, inr, some, List, [], ◌∷◌, map, get_elem?, set, length,
  All, arith,
}
use cuartel.Workflow.Defs.{StepExecution, StepState, WorkflowStep}
use cuartel.Workflow.Exec.{skip_from, new_step}

module _ {V : Type 0} where
  abbrev pub IsCompleted : StepExecution V → Type 0
  IsCompleted s = s.state ≡ StepState.completed

  -- A step that was never begun.
  abbrev pub IsFresh : StepExecution V → Type 0
  IsFresh s = (s.state ≡ StepState.pending) × (s.attempts ≡ 0)

  abbrev pub IsActive : StepExecution V → Type 0
  IsActive s = (s.state ≡ StepState.pending) ⊎ (s.state ≡ StepState.running)

  abbrev pub IsWaiting : StepExecution V → Type 0
  IsWaiting s = s.state ≡ StepState.waiting_for_signal

  abbrev pub IsFailed : StepExecution V → Type 0
  IsFailed s = s.state ≡ StepState.failed

  abbrev pub IsSkipped : StepExecution V → Type 0
  IsSkipped s = s.state ≡ StepState.skipped

  -- The steps around an index inside the list.
  abbrev pub Slots :
      (StepExecution V → Type 0) → (StepExecution V → Type 0) → ℕ → List (StepExecution V) → Type 0
  Slots C R i [] = ⊥
  Slots C R zero (s ∷ ss) = C s × All R ss
  Slots C R (suc i) (s ∷ ss) = IsCompleted s × Slots C R i ss

  module _ (C R : StepExecution V → Type 0) where
    pub Slots-get :
        (i : ℕ) (ss : List (StepExecution V))
        → Slots C R i ss
        → (s : StepExecution V) × (get_elem? ss i ≡ some s) × C s
    Slots-get i [] h = elim h [ ]
    Slots-get zero (s ∷ ss) h = (s, refl, h.0)
    Slots-get (suc i) (s ∷ ss) h = Slots-get i ss h.1

    pub Slots-set :
        (C' : StepExecution V → Type 0) (i : ℕ) (ss : List (StepExecution V)) (s : StepExecution V)
        → C' s
        → Slots C R i ss
        → Slots C' R i (set ss i s)
    Slots-set C' i [] s c h = elim h [ ]
    Slots-set C' zero (x ∷ ss) s c h = (c, h.1)
    Slots-set C' (suc i) (x ∷ ss) s c h = (h.0, Slots-set C' i ss s c h.1)

    -- With the current step done, the index moves to the next one, or past the last one.
    pub Slots-advance :
        (i : ℕ) (ss : List (StepExecution V)) (s : StepExecution V)
        → IsCompleted s
        → Slots C R i ss
        → ((length ss ≡ suc i) × All IsCompleted (set ss i s))
          ⊎ ((suc i < length ss) × Slots R R (suc i) (set ss i s))
    Slots-advance i [] s c h = elim h [ ]
    Slots-advance zero (x ∷ []) s c h = inl (refl, (c, tt))
    Slots-advance zero (x ∷ y ∷ ss) s c h = inr (omega arith, (c, h.1))
    Slots-advance (suc i) (x ∷ ss) s c h = elim (Slots-advance i ss s c h.1) [
      | inl (e, a) ↦ inl (omega arith, (h.0, a))
      | inr (l, a) ↦ inr (omega arith, (h.0, a))
    ]

    pub Slots-mono :
        (C' R' : StepExecution V → Type 0) (i : ℕ) (ss : List (StepExecution V))
        → ((s : StepExecution V) → C s → C' s)
        → ((ss : List (StepExecution V)) → All R ss → All R' ss)
        → Slots C R i ss
        → Slots C' R' i ss
    Slots-mono C' R' i [] f g h = elim h [ ]
    Slots-mono C' R' zero (s ∷ ss) f g h = (f s h.0, g ss h.1)
    Slots-mono C' R' (suc i) (s ∷ ss) f g h = (h.0, Slots-mono C' R' i ss f g h.1)

    -- A change of every step that keeps completed steps completed.
    pub Slots-map :
        (C' R' : StepExecution V → Type 0) (k : StepExecution V → StepExecution V) (i : ℕ)
        (ss : List (StepExecution V))
        → ((s : StepExecution V) → IsCompleted s → IsCompleted (k s))
        → ((s : StepExecution V) → C s → C' (k s))
        → ((ss : List (StepExecution V)) → All R ss → All R' (map k ss))
        → Slots C R i ss
        → Slots C' R' i (map k ss)
    Slots-map C' R' k i [] d f g h = elim h [ ]
    Slots-map C' R' k zero (s ∷ ss) d f g h = (f s h.0, g ss h.1)
    Slots-map C' R' k (suc i) (s ∷ ss) d f g h = (d s h.0, Slots-map C' R' k i ss d f g h.1)

  skip_from-All : (ss : List (StepExecution V)) → All IsSkipped (skip_from 0 ss)
  unfolding skip_from
  skip_from-All [] = tt
  skip_from-All (s ∷ ss) = (refl, skip_from-All ss)

  pub Slots-skip_from :
      (C R : StepExecution V → Type 0) (i : ℕ) (ss : List (StepExecution V))
      → Slots C R i ss
      → Slots C IsSkipped i (skip_from (suc i) ss)
  unfolding skip_from
  Slots-skip_from C R i [] h = elim h [ ]
  Slots-skip_from C R zero (s ∷ ss) h = (h.0, skip_from-All ss)
  Slots-skip_from C R (suc i) (s ∷ ss) h = (h.0, Slots-skip_from C R i ss h.1)

pub All-map-new_step :
    (V : Type 0) (ss : List WorkflowStep) → All IsFresh (map (new_step {V = V}) ss)
unfolding new_step
All-map-new_step V [] = tt
All-map-new_step V (s ∷ ss) = ((refl, refl), All-map-new_step V ss)
