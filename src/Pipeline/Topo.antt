-- ===== src/Pipeline/Topo.antt =====
-- `validate` and `topological_sort`: the order in which the stages of a pipeline can run.
use cuartel.Common.{
  ℕ, zero, suc, Option, none, some, List, [], ◌∷◌, ◌++◌, not, map, select, length, ◌==◌,
  if◌then◌else◌,
}
use cuartel.Common.Dict.{lookup, insert, adjust}
use cuartel.Pipeline.Defs.{
  StageId, PipelineStage, duplicate_stage, unknown_dependency, cycle_detected, empty_pipeline,
  Result, ok, err, Pipeline, contains,
}

-- The two maps of `topological_sort`.
pub record Graph : Type 0 where
  pub in_degree : List (StageId × ℕ)
  pub dependents : List (StageId × List StageId)

-- `entry(id).or_insert(0)`
unfoldable pub or_zero : StageId → List (StageId × ℕ) → List (StageId × ℕ)
or_zero id m = elim (lookup id m) [ some n ↦ m | none ↦ insert id 0 m ]

-- `entry(dep).or_default()`
abbrev pub targets : List (StageId × List StageId) → StageId → List StageId
targets m dep = elim (lookup dep m) [ some ids ↦ ids | none ↦ [] ]

-- A dependency and the stage that has it.
unfoldable pub add_edge : Graph → StageId × StageId → Graph
unfolding or_zero
add_edge g (dep, id) = record {
  in_degree = adjust suc id (or_zero id g.in_degree);
  dependents = insert dep (targets g.dependents dep ++ id ∷ []) g.dependents;
}

unfoldable pub add_edges : Graph → List (StageId × StageId) → Graph
unfolding add_edge
add_edges g [] = g
add_edges g (e ∷ es) = add_edges (add_edge g e) es

abbrev pub edges_of : PipelineStage → List (StageId × StageId)
edges_of s = map (λ dep. (dep, s.id)) s.depends_on

unfoldable pub add_stages : Graph → List PipelineStage → Graph
unfolding add_edges or_zero
add_stages g [] = g
add_stages g (s ∷ ss) =
    add_stages (add_edges (record g { in_degree = or_zero s.id g.in_degree }) (edges_of s)) ss

-- The inner loop; `none` where it panics.
unfoldable pub relax :
    List (StageId × ℕ) → List StageId → List StageId → Option (List (StageId × ℕ) × List StageId)
relax m queue [] = some (m, queue)
relax m queue (y ∷ ys) = elim (lookup y m) [
  | none ↦ none
  | some n ↦ elim n [
    | zero ↦ none
    | suc k ↦ relax (adjust (λ d. k) y m) (if k == 0 then queue ++ y ∷ [] else queue) ys
  ]
]

-- The `while` loop on fuel; `none` where it panics or the fuel runs out.
unfoldable pub sort_loop :
    ℕ
    → List (StageId × List StageId)
    → List (StageId × ℕ)
    → List StageId
    → List StageId
    → Option (List StageId)
unfolding relax
sort_loop fuel dependents m [] order = some order
sort_loop zero dependents m (id ∷ queue) order = none
sort_loop (suc fuel) dependents m (id ∷ queue) order =
    elim (relax m queue (targets dependents id)) [
      | none ↦ none
      | some (m', queue') ↦ sort_loop fuel dependents m' queue' (order ++ id ∷ [])
    ]

-- The stages with no dependency left.
abbrev pub sources : List (StageId × ℕ) → List StageId
sources [] = []
sources ((id, deg) ∷ m) = if deg == 0 then id ∷ sources m else sources m

abbrev pub empty_graph : Graph
empty_graph = record { in_degree = []; dependents = [] }

-- Whether the order has all stages.
unfoldable pub check_order : List PipelineStage → List StageId → Result (List StageId)
check_order stages order =
    if length order == length stages
    then ok order
    else err (cycle_detected (map (λ s. s.id) (select (λ s. not (contains order s.id)) stages)))

unfoldable pub topological_sort : List PipelineStage → Option (Result (List StageId))
unfolding add_stages sort_loop check_order
topological_sort stages =
    let g = add_stages empty_graph stages in
    elim (sort_loop (length g.in_degree) g.dependents g.in_degree (sources g.in_degree) []) [
      | none ↦ none
      | some order ↦ some (check_order stages order)
    ]

-- The loop that fills `seen`.
unfoldable pub first_duplicate : List StageId → List PipelineStage → Option StageId
first_duplicate seen [] = none
first_duplicate seen (s ∷ ss) =
    if contains seen s.id then some s.id else first_duplicate (s.id ∷ seen) ss

unfoldable pub first_unknown : List StageId → List PipelineStage → Option (StageId × StageId)
first_unknown seen [] = none
first_unknown seen (s ∷ ss) = elim (missing s.depends_on) [
  | some dep ↦ some (s.id, dep)
  | none ↦ first_unknown seen ss
]
  where
    missing : List StageId → Option StageId
    missing [] = none
    missing (d ∷ ds) = if contains seen d then missing ds else some d

unfoldable pub validate : Pipeline → Option (Result (Unit {0}))
unfolding first_duplicate first_unknown topological_sort
validate p = elim p.stages [
  | [] ↦ some (err empty_pipeline)
  | s ∷ ss ↦ elim (first_duplicate [] p.stages) [
    | some id ↦ some (err (duplicate_stage id))
    | none ↦ elim (first_unknown (map (λ s. s.id) p.stages) p.stages) [
      | some (id, missing) ↦ some (err (unknown_dependency id missing))
      | none ↦ elim (topological_sort p.stages) [
        | none ↦ none
        | some (ok order) ↦ some (ok tt)
        | some (err e) ↦ some (err e)
      ]
    ]
  ]
]

unfoldable pub topological_order : Pipeline → Option (Result (List StageId))
unfolding validate topological_sort
topological_order p = elim (validate p) [
  | none ↦ none
  | some (err e) ↦ some (err e)
  | some (ok u) ↦ topological_sort p.stages
]
