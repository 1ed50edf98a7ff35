-- ===== src/Pipeline/Runnable.antt =====
-- `runnable_stages` against `start_stage`: the stages that are offered are those that can be started.
use cuartel.Common.{
  ℕ, String, ◌≡◌, refl, sym, ap, subst, ◌∙◌, ◌≢◌, ◌↔◌, inl, inr, Bool, true, false, ◌&&◌, Option,
  none, some, List, [], ◌∷◌, map, All, arith, Bool-cases, Option-cases, str_eq, eq_iff, all, find,
  select,
}
use cuartel.Common.Dict.{lookup, Absent, Distinct}
use cuartel.Pipeline.Defs.{
  StageId, PipelineStage, PipelineRunState, PipelineError, Pipeline, StageRun, PipelineRun, Result,
  ok, err, stage, contains, is_completed,
}
use cuartel.Pipeline.Exec.{
  start_stage, start_checked, start_found, check_dependencies, runnable_stages, completed_ids,
  pending_at,
}
use cuartel.Pipeline.Invariant.{UniqueIds}

-- Membership in the ids of a selection, for stages with ids of their own, is the test of the stage
-- that `Pipeline::stage` finds.
module _ (c : PipelineStage → Bool) where
  abbrev found_test : Option PipelineStage → Bool
  found_test none = false
  found_test (some s) = c s

  contains-select_absent :
      (ss : List PipelineStage) (id : StageId)
      → All (λ t. t.id ≢ id) ss
      → contains (map (λ s. s.id) (select c ss)) id ≡ false
  contains-select_absent [] id h = refl
  contains-select_absent (s ∷ ss) id h =
      ground (arith, eq_iff s.id id, contains-select_absent ss id h.1)

  contains-select :
      (ss : List PipelineStage) (id : StageId)
      → UniqueIds ss
      → contains (map (λ s. s.id) (select c ss)) id ≡ found_test (find (λ s. str_eq s.id id) ss)
  contains-select [] id u = refl
  contains-select (s ∷ ss) id u = elim (Bool-cases (str_eq s.id id)) [
    | inr other ↦ ground (arith, contains-select ss id u.1)
    | inl same ↦
        let gone =
          contains-select_absent ss id
            (subst (λ k. All (λ t. t.id ≢ k) ss) ((eq_iff s.id id).0 same) u.0) in
        ground (arith, gone)
  ]

-- Membership in the completed ids, in a map where no key stands twice.
abbrev completed_at : Option StageRun → Bool
completed_at none = false
completed_at (some x) = is_completed x.state

contains-completed-Absent :
    (m : List (StageId × StageRun)) (d : StageId)
    → Absent d m
    → contains (completed_ids m) d ≡ false
contains-completed-Absent [] d a = refl
contains-completed-Absent ((j, x) ∷ m) d a =
    ground (arith, eq_iff j d, contains-completed-Absent m d a.1)

contains-completed :
    (m : List (StageId × StageRun)) (d : StageId)
    → Distinct m
    → contains (completed_ids m) d ≡ completed_at (lookup d m)
unfolding lookup
contains-completed [] d u = refl
contains-completed ((j, x) ∷ m) d u = elim (Bool-cases (str_eq j d)) [
  | inr other ↦ rw (other, lookup) (ground (arith, contains-completed m d u.1))
  | inl same ↦
      let gone =
        contains-completed-Absent m d (subst (λ k. Absent k m) ((eq_iff j d).0 same) u.0) in
      rw (same, lookup) (ground (arith, gone))
]

-- The loop of `start_stage` ends well exactly when every dependency is among the completed ids.
passes : Option PipelineError → Bool
passes none = true
passes (some e) = false

check_dependencies-all :
    (id : StageId) (m : List (StageId × StageRun)) (ds : List StageId)
    → Distinct m
    → passes (check_dependencies id m ds) ≡ all (contains (completed_ids m)) ds
unfolding check_dependencies passes
check_dependencies-all id m [] u = refl
check_dependencies-all id m (d ∷ ds) u =
    ground (arith, contains-completed m d u, check_dependencies-all id m ds u)

found_at : (p : Pipeline) (id : StageId) {def : PipelineStage} → stage p id ≡ some def → def.id ≡ id
unfolding stage
found_at p id {def} h = go p.stages h
  where
    go : (ss : List PipelineStage) → find (λ s. str_eq s.id id) ss ≡ some def → def.id ≡ id
    go [] e = cc
    go (s ∷ ss) e = elim (Bool-cases (str_eq s.id id)) [
      | inl same ↦ ground (arith, eq_iff s.id id)
      | inr other ↦ go ss (ground arith)
    ]

abbrev is_ok : Result (Unit {0}) → Bool
is_ok (ok u) = true
is_ok (err e) = false

is_ok_iff : (x : Result (Unit {0})) → (is_ok x ≡ true) ↔ (x ≡ ok tt)
is_ok_iff (ok u) = (λ h. refl, λ h. refl)
is_ok_iff (err e) = (λ h. cc, λ h. cc)

-- The test that `runnable_stages` makes of a stage.
abbrev offers : PipelineRun → PipelineStage → Bool
offers r s =
    pending_at (lookup s.id r.stages) && all (contains (completed_ids r.stages)) s.depends_on

start_checked-offers :
    (r : PipelineRun) (id session : String) (started now : ℕ) (o : Option PipelineError)
    → is_ok (start_checked r id session started now o).1
      ≡ (pending_at (lookup id r.stages) && passes o)
unfolding start_checked start_found passes
start_checked-offers r id session started now none = ground arith
start_checked-offers r id session started now (some e) = ground arith

start_stage-offers :
    (r : PipelineRun) (id session : String) (p : Pipeline) (started now : ℕ)
    → Distinct r.stages
    → is_ok (start_stage r id session p started now).1 ≡ found_test (offers r) (stage p id)
unfolding start_stage
start_stage-offers r id session p started now u = elim (Option-cases (stage p id)) [
  | inl unknown ↦ rw (unknown, start_stage) refl
  | inr (def, known) ↦
      rw (known, start_stage)
        (start_checked-offers r id session started now
            (check_dependencies id r.stages def.depends_on)
          ∙ ap (λ b. pending_at (lookup id r.stages) && b)
              (check_dependencies-all id r.stages def.depends_on u)
          ∙ ap
              (λ k.
                pending_at (lookup k r.stages)
                && all (contains (completed_ids r.stages)) def.depends_on)
              (sym (found_at p id known)))
]

-- In a running run, the ids that `runnable_stages` lists are exactly those for which `start_stage`
-- succeeds at that moment, if the pipeline's stages have ids of their own and no key of the run's
-- map stands twice.
pub runnable_iff_startable :
    (r : PipelineRun) (p : Pipeline) (id session : String) (started now : ℕ)
    → r.state ≡ PipelineRunState.running
    → Distinct r.stages
    → UniqueIds p.stages
    → (contains (runnable_stages r p) id ≡ true)
      ↔ ((start_stage r id session p started now).1 ≡ ok tt)
runnable_iff_startable r p id session started now run d u =
    let listed : contains (runnable_stages r p) id ≡ found_test (offers r) (stage p id) =
      unfold runnable_stages stage in rw run (contains-select (offers r) p.stages id u) in
    let same = listed ∙ sym (start_stage-offers r id session p started now d) in
    (λ h. (is_ok_iff _).0 (sym same ∙ h), λ h. same ∙ (is_ok_iff _).1 h)
