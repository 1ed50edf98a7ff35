-- ===== src/Pipeline/Tests.antt =====
-- A pipeline of a coder with a reviewer and a tester behind it, and the theorems at its runs.
use cuartel.Common.{
  ℕ, String, ◌≡◌, refl, ◌↔◌, some, List, [], ◌∷◌, true, false, arith, ◌≢◌, str_eq, eq_iff,
}
use cuartel.Common.Dict.{lookup, insert, adjust}
use cuartel.Agent.{claude_code, pi}
use cuartel.Pipeline.Defs.{
  Result, PipelineStage, PipelineRunState, PipelineError, Pipeline, StageId, cycle_detected, stage,
  ok, err, dependencies_not_met, contains,
}
use cuartel.Pipeline.Exec.{
  new, start, start_stage, complete_stage, fail_stage, cancel, check_dependencies, runnable_stages,
}
use cuartel.Pipeline.Moves.{Evolves, Ready}
use cuartel.Pipeline.Runs.{Op, starts, starts_stage, completes_stage, exec, run, exec-Evolves}
use cuartel.Pipeline.Invariant.{Inv, UniqueIds, run-new-Inv}
use cuartel.Pipeline.Outcome.{NonePending, fail_stage-stops, cancelled_fails}
use cuartel.Pipeline.Runnable.{runnable_iff_startable}
use cuartel.Pipeline.Topo.{topological_sort, validate}
use cuartel.Pipeline.Stuck.{Outcome}
use cuartel.Pipeline.Sorted.{topological_sort-sorts}

abbrev coder : PipelineStage
coder = record {
  id = "coder";
  agent_type = claude_code;
  prompt_template = "Implement";
  depends_on = [];
}

abbrev reviewer : PipelineStage
reviewer = record {
  id = "reviewer";
  agent_type = claude_code;
  prompt_template = "Review: {{coder}}";
  depends_on = "coder" ∷ [];
}

abbrev tester : PipelineStage
tester = record {
  id = "tester";
  agent_type = pi;
  prompt_template = "Test: {{coder}}";
  depends_on = "coder" ∷ [];
}

abbrev review_pipeline : Pipeline
review_pipeline = record { id = "p1"; name = "Review"; stages = coder ∷ reviewer ∷ tester ∷ [] }

-- The coder is done and the reviewer runs.
abbrev under_review : List Op
under_review =
    starts 1
    ∷ starts_stage "coder" "s1" 2 2
    ∷ completes_stage "coder" "diff" 3 3
    ∷ starts_stage "reviewer" "s2" 4 4
    ∷ []

-- Texts that the comparison tells apart differ.
apart : (a b : String) → str_eq a b ≡ false → a ≢ b
apart a b h e = ground (arith, eq_iff a b)

review_ids : UniqueIds review_pipeline.stages
review_ids = (
  (apart "reviewer" "coder" refl, (apart "tester" "coder" refl, tt)),
  ((apart "tester" "reviewer" refl, tt), (tt, tt)),
)

order_kept :
    (start_stage (new "r" review_pipeline 0) "reviewer" "s" review_pipeline 1 1).1
    ≡ err (dependencies_not_met "reviewer")
unfolding start_stage new lookup insert stage check_dependencies
order_kept = refl

offered :
    runnable_stages (run review_pipeline (new "r" review_pipeline 0) under_review) review_pipeline
    ≡ "tester" ∷ []
unfolding run exec new start start_stage complete_stage runnable_stages stage lookup insert adjust
    check_dependencies
offered = refl

exec-Evolves_example :
    Evolves
      (Ready review_pipeline (new "r" review_pipeline 0).stages)
      (new "r" review_pipeline 0).stages
      (exec review_pipeline (new "r" review_pipeline 0) (starts_stage "coder" "s1" 2 2)).stages
exec-Evolves_example =
    exec-Evolves review_pipeline (new "r" review_pipeline 0) (starts_stage "coder" "s1" 2 2)

run-new-Inv_example :
    Inv review_pipeline (run review_pipeline (new "r" review_pipeline 0) under_review)
run-new-Inv_example = run-new-Inv "r" review_pipeline 0 under_review review_ids

fail_stage-stops_example :
    let r = run review_pipeline (new "r" review_pipeline 0) under_review in
    let r' = (fail_stage r "reviewer" "no" 5 5).0 in
    (r'.state ≡ PipelineRunState.failed)
    × NonePending r'.stages
    × ((j session : String) (p : Pipeline) (started later : ℕ)
        → (e : PipelineError) × (start_stage r' j session p started later ≡ (r', err e)))
unfolding run exec new start start_stage complete_stage fail_stage stage lookup insert adjust
    check_dependencies
fail_stage-stops_example =
    fail_stage-stops (run review_pipeline (new "r" review_pipeline 0) under_review) "reviewer" "no"
      5 5 refl

cancelled_fails_example :
    let r = run review_pipeline (new "r" review_pipeline 0) under_review in
    ((cancel r 5).state ≡ PipelineRunState.cancelled)
    × ((fail_stage (cancel r 5) "reviewer" "no" 6 6).1 ≡ ok tt)
    × ((fail_stage (cancel r 5) "reviewer" "no" 6 6).0.state ≡ PipelineRunState.failed)
unfolding run exec new start start_stage complete_stage stage lookup insert adjust
    check_dependencies
cancelled_fails_example =
    cancelled_fails (run review_pipeline (new "r" review_pipeline 0) under_review) "reviewer" "no" _
      5 6 6 refl refl

runnable_iff_startable_example :
    let r = run review_pipeline (new "r" review_pipeline 0) under_review in
    (contains (runnable_stages r review_pipeline) "tester" ≡ true)
    ↔ ((start_stage r "tester" "s3" review_pipeline 5 5).1 ≡ ok tt)
unfolding run exec new start start_stage complete_stage stage lookup insert adjust
    check_dependencies
runnable_iff_startable_example =
    runnable_iff_startable (run review_pipeline (new "r" review_pipeline 0) under_review)
      review_pipeline "tester" "s3" 5 5 refl
      (run-new-Inv "r" review_pipeline 0 under_review review_ids).distinct review_ids

topological_sort-sorts_example :
    (r : Result (List StageId)) × (topological_sort review_pipeline.stages ≡ some r)
    × Outcome review_pipeline.stages r
topological_sort-sorts_example =
    topological_sort-sorts review_pipeline.stages (refl, (refl, (refl, tt)))

coder_first : topological_sort (tester ∷ coder ∷ []) ≡ some (ok ("coder" ∷ "tester" ∷ []))
unfolding topological_sort lookup insert adjust
coder_first = refl

-- A coder that waits for its own reviewer.
abbrev waiting_coder : PipelineStage
waiting_coder = record coder { depends_on = "reviewer" ∷ [] }

cycle_found :
    topological_sort (waiting_coder ∷ reviewer ∷ [])
    ≡ some (err (cycle_detected ("coder" ∷ "reviewer" ∷ [])))
unfolding topological_sort lookup insert adjust
cycle_found = refl

review_valid : validate review_pipeline ≡ some (ok tt)
unfolding validate lookup insert adjust
review_valid = refl
