-- ===== src/Pipeline/Outcome.antt =====
-- How a failure and a cancel end a run.
use cuartel.Common.{
  ℕ, String, ◌≡◌, refl, sym, ap, subst, ◌∙◌, ◌≢◌, inl, inr, none, some, List, arith, Bool-cases,
  Option-cases,
}
use cuartel.Common.Dict.{lookup, adjust, map_values, lookup-map_values}
use cuartel.Pipeline.Defs.{
  StageId, StageState, PipelineRunState, PipelineError, Pipeline, StageRun, PipelineRun, ok, err,
  stage_not_found, invalid_transition, stage, is_pending,
}
use cuartel.Pipeline.Exec.{
  start_stage, start_checked, start_found, fail_stage, fail_found, cancel, skip_pending,
  check_dependencies,
}
use cuartel.Pipeline.Moves.{pending_of}

-- No stage of the map waits to be started.
abbrev pub NonePending : List (StageId × StageRun) → Type 0
NonePending m = (id : StageId) (x : StageRun) → lookup id m ≡ some x → x.state ≢ StageState.pending

skipped_state : (x : StageRun) → (skip_pending x).state ≢ StageState.pending
unfolding skip_pending
skipped_state x = ground arith

map_skip-NonePending : (m : List (StageId × StageRun)) → NonePending (map_values skip_pending m)
map_skip-NonePending m id x e h = elim (Option-cases (lookup id m)) [
  | inl missing ↦ lookup_clash (rw (lookup-map_values skip_pending id m, missing) at e)
  | inr (y, here) ↦
      skipped_state y (same_state (rw (lookup-map_values skip_pending id m, here) at e) ∙ h)
]
  where
    lookup_clash : none ≡ some x → ⊥
    lookup_clash k = cc

    same_state : {y : StageRun} → some y ≡ some x → y.state ≡ x.state
    same_state k = cc

-- Where nothing is pending no stage can be started.
start_refused :
    (r : PipelineRun) (id session : String) (p : Pipeline) (started now : ℕ)
    → NonePending r.stages
    → (e : PipelineError) × (start_stage r id session p started now ≡ (r, err e))
unfolding start_stage start_checked start_found
start_refused r id session p started now h = elim (Option-cases (stage p id)) [
  | inl unknown ↦ (stage_not_found id, rw (unknown, start_stage))
  | inr (def, known) ↦ elim (Option-cases (check_dependencies id r.stages def.depends_on)) [
    | inr (e, unmet) ↦ (e, rw (known, start_stage) (rw (unmet, start_checked)))
    | inl met ↦ elim (Option-cases (lookup id r.stages)) [
      | inl missing ↦
          (stage_not_found id, rw (known, start_stage) (rw (met, missing, start_checked)))
      | inr (x, here) ↦ elim (Bool-cases (is_pending x.state)) [
        | inl pend ↦ absurd (h id x here (pending_of x.state pend))
        | inr n ↦ (
          invalid_transition id x.state "start_stage",
          rw (known, start_stage) (rw (met, here, start_checked) (rw (n, start_found))),
        )
      ]
    ]
  ]
]

fail_form :
    (r : PipelineRun) (id error : String) (done now : ℕ)
    → (fail_stage r id error done now).1 ≡ ok tt
    → (m : List (StageId × StageRun)) × ((fail_stage r id error done now).0 ≡ record r {
      state = PipelineRunState.failed;
      stages = map_values skip_pending m;
      updated_at = now;
    })
unfolding fail_stage fail_found
fail_form r id error done now e = (
  adjust (λ x. record x { state = StageState.failed; error = some error; completed_at = some done })
      id r.stages,
  ground arith,
)

skip_running : (x : StageRun) → x.state ≡ StageState.running → some (skip_pending x) ≡ some x
unfolding skip_pending
skip_running x h = ground arith

-- A stage that fails stops the run: after `fail_stage` succeeds the run is `Failed`, no stage is
-- pending any more, and every later `start_stage` is refused and changes nothing.
pub fail_stage-stops :
    (r : PipelineRun) (id error : String) (done now : ℕ)
    → (fail_stage r id error done now).1 ≡ ok tt
    → let r' = (fail_stage r id error done now).0 in
      (r'.state ≡ PipelineRunState.failed)
      × NonePending r'.stages
      × ((j session : String) (p : Pipeline) (started later : ℕ)
          → (e : PipelineError) × (start_stage r' j session p started later ≡ (r', err e)))
fail_stage-stops r id error done now e =
    let (m, form) = fail_form r id error done now e in
    let none_pending = subst (λ x. NonePending x.stages) (sym form) (map_skip-NonePending m) in
    (
      ap (λ x. x.state) form,
      none_pending,
      λ j session p started later.
          start_refused (fail_stage r id error done now).0 j session p started later none_pending,
    )

-- `Cancelled` is not final. If a stage is running when the run is cancelled, a later `fail_stage` of
-- that stage still succeeds and turns the run from `Cancelled` to `Failed`.
pub cancelled_fails :
    (r : PipelineRun) (id error : String) (x : StageRun) (at done now : ℕ)
    → lookup id r.stages ≡ some x
    → x.state ≡ StageState.running
    → ((cancel r at).state ≡ PipelineRunState.cancelled)
      × ((fail_stage (cancel r at) id error done now).1 ≡ ok tt)
      × ((fail_stage (cancel r at) id error done now).0.state ≡ PipelineRunState.failed)
unfolding cancel fail_stage fail_found
cancelled_fails r id error x at done now here running =
    let still : lookup id (map_values skip_pending r.stages) ≡ some x =
      rw (lookup-map_values skip_pending id r.stages, here) (skip_running x running) in
    (refl, ground (arith, still), ground (arith, still))
