-- ===== src/Pipeline/Moves.antt =====
-- How a stage's state moves: the edges that the calls on a run may take, whatever the run.
use mathlib.Core.Path.{subst₂}
use mathlib.Core.Option
use cuartel.Common.{
  ℕ, String, ◌≡◌, refl, sym, inl, inr, true, Option, none, some, List, [], ◌∷◌, arith, All,
  Bool-cases, Option-cases, str_eq, eq_iff,
}
use cuartel.Common.Dict.{lookup, adjust, map_values, lookup-adjust, lookup-map_values}
use cuartel.Pipeline.Defs.{
  StageId, StageState, Pipeline, StageRun, PipelineRun, PipelineStage, stage, is_pending,
  is_running, is_completed, PipelineError,
}
use cuartel.Pipeline.Exec.{
  start_found, start_checked, start_stage, complete_found, complete_stage, finish_if_all,
  fail_found, fail_stage, skip_pending, cancel, check_dependencies,
}

pub running_of : (s : StageState) → is_running s ≡ true → s ≡ StageState.running
running_of s h = ground arith

pub pending_of : (s : StageState) → is_pending s ≡ true → s ≡ StageState.pending
pending_of s h = ground arith

some_ne_none : {e : PipelineError} → some e ≡ none → ⊥
some_ne_none h = cc

pub completed_of : (s : StageState) → is_completed s ≡ true → s ≡ StageState.completed
completed_of s h = ground arith

-- The edges of a stage's life. `completed`, `failed` and `skipped` have none that leave them.
-- A stage begins only under the condition `B`.
pub data Moves (B : Type 0) : StageState → StageState → Type 0 where
  stays : {s : StageState} → Moves B s s
  begins : B → Moves B StageState.pending StageState.running
  completes : Moves B StageState.running StageState.completed
  fails : Moves B StageState.running StageState.failed
  skips : Moves B StageState.pending StageState.skipped

-- One entry of the map of stages before and after.
abbrev pub Entry : Type 0 → Option StageRun → Option StageRun → Type 0
Entry B none none = Unit
Entry B (some x) (some y) = Moves B x.state y.state
Entry B none (some y) = ⊥
Entry B (some x) none = ⊥

-- The same stages, each moved along one edge at most.
pub record Evolves (B : StageId → Type 0) (m n : List (StageId × StageRun)) : Type 0 where
  pub at : (id : StageId) → Entry (B id) (lookup id m) (lookup id n)

-- A stage that is there and completed.
abbrev pub Done : List (StageId × StageRun) → StageId → Type 0
Done m d = (x : StageRun) × (lookup d m ≡ some x) × (x.state ≡ StageState.completed)

-- All dependencies of a stage of the pipeline are completed.
abbrev pub Ready : Pipeline → List (StageId × StageRun) → StageId → Type 0
Ready p m id = (def : PipelineStage) × (stage p id ≡ some def) × All (Done m) def.depends_on

Entry-refl : (B : Type 0) (o : Option StageRun) → Entry B o o
Entry-refl B none = tt
Entry-refl B (some x) = stays

pub Evolves-refl : (B : StageId → Type 0) (m : List (StageId × StageRun)) → Evolves B m m
Evolves-refl B m = record { at = λ id. Entry-refl (B id) (lookup id m) }

Moves-to : {B : Type 0} {s t u v : StageState} → Moves B s t → s ≡ u → t ≡ v → Moves B u v
Moves-to {B} m p q = subst₂ (Moves B) p q m

-- A change of the run of one stage.
adjust-Evolves :
    (B : StageId → Type 0) (f : StageRun → StageRun) (id : StageId) (x : StageRun)
    (m : List (StageId × StageRun))
    → lookup id m ≡ some x
    → Moves (B id) x.state (f x).state
    → Evolves B m (adjust f id m)
adjust-Evolves B f id x m here moved = record {
  at = λ j. rw (lookup-adjust f id j m) (elim (Bool-cases (str_eq id j)) [
    | inl same ↦ rw (same, ← (eq_iff id j).0 same) (rw here moved)
    | inr other ↦ rw other (Entry-refl (B j) (lookup j m))
  ]);
}

skip_pending-Moves : (B : Type 0) (x : StageRun) → Moves B x.state (skip_pending x).state
unfolding skip_pending
skip_pending-Moves B x = elim (Bool-cases (is_pending x.state)) [
  | inl p ↦ rw (p, skip_pending) (Moves-to skips (sym (pending_of x.state p)) refl)
  | inr n ↦ rw (n, skip_pending) stays
]

map-Entry : (B : Type 0) (o : Option StageRun) → Entry B o (Option.map skip_pending o)
map-Entry B none = tt
map-Entry B (some x) = skip_pending-Moves B x

skip-Evolves :
    (B : StageId → Type 0) (m : List (StageId × StageRun)) → Evolves B m (map_values skip_pending m)
skip-Evolves B m = record {
  at = λ j. rw (lookup-map_values skip_pending j m) (map-Entry (B j) (lookup j m));
}

-- A failed stage, with the pending ones skipped.
fail-Evolves :
    (B : StageId → Type 0) (f : StageRun → StageRun) (id : StageId) (x : StageRun)
    (m : List (StageId × StageRun))
    → lookup id m ≡ some x
    → Moves (B id) x.state (skip_pending (f x)).state
    → Evolves B m (map_values skip_pending (adjust f id m))
fail-Evolves B f id x m here moved = record {
  at = λ j.
      rw (lookup-map_values skip_pending j (adjust f id m), lookup-adjust f id j m)
        (elim (Bool-cases (str_eq id j)) [
          | inl same ↦ rw (same, ← (eq_iff id j).0 same) (rw here moved)
          | inr other ↦ rw other (map-Entry (B j) (lookup j m))
        ]);
}

check_sound :
    (id : StageId) (m : List (StageId × StageRun)) (ds : List StageId)
    → check_dependencies id m ds ≡ none
    → All (Done m) ds
unfolding check_dependencies
check_sound id m [] h = tt
check_sound id m (d ∷ ds) h = elim (Option-cases (lookup d m)) [
  | inl missing ↦ absurd (some_ne_none (rw (missing, check_dependencies) at h))
  | inr (x, here) ↦ elim (Bool-cases (is_completed x.state)) [
    | inl c ↦ (
      (x, here, completed_of x.state c),
      check_sound id m ds (rw (here, c, check_dependencies) at h),
    )
    | inr n ↦ absurd (some_ne_none (rw (here, n, check_dependencies) at h))
  ]
]

pub start_stage-Evolves :
    (r : PipelineRun) (id session : String) (p : Pipeline) (started now : ℕ)
    → Evolves (Ready p r.stages) r.stages (start_stage r id session p started now).0.stages
unfolding start_stage start_checked start_found
start_stage-Evolves r id session p started now = elim (Option-cases (stage p id)) [
  | inl unknown ↦ rw (unknown, start_stage) (Evolves-refl _ r.stages)
  | inr (def, known) ↦
      rw (known, start_stage)
        (elim (Option-cases (check_dependencies id r.stages def.depends_on)) [
          | inr (e, unmet) ↦ rw (unmet, start_checked) (Evolves-refl _ r.stages)
          | inl met ↦
              rw (met, start_checked)
                (elim (Option-cases (lookup id r.stages)) [
                  | inl missing ↦ rw (missing, start_checked) (Evolves-refl _ r.stages)
                  | inr (x, here) ↦
                      rw (here, start_checked)
                        (elim (Bool-cases (is_pending x.state)) [
                          | inr n ↦ rw (n, start_found) (Evolves-refl _ r.stages)
                          | inl pend ↦
                              rw (pend, start_found)
                                (adjust-Evolves _ _ id x r.stages here (
                                  Moves-to
                                    (begins
                                      (def, known, check_sound id r.stages def.depends_on met))
                                    (sym (pending_of x.state pend)) refl))
                        ])
                ])
        ])
]

finish_if_all-stages : (r : PipelineRun) → (finish_if_all r).stages ≡ r.stages
unfolding finish_if_all
finish_if_all-stages r = ground arith

pub complete_stage-Evolves :
    (B : StageId → Type 0) (r : PipelineRun) (id output : String) (done now : ℕ)
    → Evolves B r.stages (complete_stage r id output done now).0.stages
unfolding complete_stage complete_found
complete_stage-Evolves B r id output done now = elim (Option-cases (lookup id r.stages)) [
  | inl missing ↦ rw (missing, complete_stage) (Evolves-refl _ r.stages)
  | inr (x, here) ↦
      rw (here, complete_stage)
        (elim (Bool-cases (is_running x.state)) [
          | inr n ↦ rw (n, complete_found) (Evolves-refl _ r.stages)
          | inl p ↦
              rw (p, complete_found)
                (rw (finish_if_all-stages _) (
                  adjust-Evolves _ _ id x r.stages here
                    (Moves-to completes (sym (running_of x.state p)) refl)))
        ])
]

pub fail_stage-Evolves :
    (B : StageId → Type 0) (r : PipelineRun) (id error : String) (done now : ℕ)
    → Evolves B r.stages (fail_stage r id error done now).0.stages
unfolding fail_stage fail_found
fail_stage-Evolves B r id error done now = elim (Option-cases (lookup id r.stages)) [
  | inl missing ↦ rw (missing, fail_stage) (Evolves-refl _ r.stages)
  | inr (x, here) ↦
      rw (here, fail_stage)
        (elim (Bool-cases (is_running x.state)) [
          | inr n ↦ rw (n, fail_found) (Evolves-refl _ r.stages)
          | inl p ↦
              rw (p, fail_found)
                (fail-Evolves _ _ id x r.stages here
                  (unfold skip_pending in Moves-to fails (sym (running_of x.state p)) refl))
        ])
]

pub cancel-Evolves :
    (B : StageId → Type 0) (r : PipelineRun) (now : ℕ) → Evolves B r.stages (cancel r now).stages
unfolding cancel
cancel-Evolves B r now = skip-Evolves B r.stages
