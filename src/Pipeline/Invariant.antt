-- ===== src/Pipeline/Invariant.antt =====
-- What holds of every run that `PipelineRun::new` and any calls lead to.
use cuartel.Common.{
  ℕ, String, ◌≡◌, sym, ◌≢◌, ◌⊎◌, inl, inr, true, some, List, [], ◌∷◌, All, arith, Bool-cases, all,
  str_eq,
}
use cuartel.Common.Dict.{
  lookup, insert, Absent, Distinct, Distinct-adjust, Distinct-map_values, Distinct-insert,
  Absent-insert, lookup-insert,
}
use cuartel.Pipeline.Defs.{
  StageId, PipelineStage, StageState, PipelineRunState, Pipeline, StageRun, PipelineRun,
  is_completed,
}
use cuartel.Pipeline.Exec.{
  new, new_stage_run, collect_runs, start, start_stage, start_checked, start_found, complete_stage,
  complete_found, finish_if_all, fail_stage, fail_found, cancel, skip_pending,
}
use cuartel.Pipeline.Moves.{completed_of}
use cuartel.Pipeline.Runs.{
  Op, starts, starts_stage, completes_stage, fails_stage, cancels, exec, run, exec-Evolves,
  KeepsOrder, Evolves-KeepsOrder, Moves-completed, Entry-back,
}

-- The stages of a pipeline have ids of their own.
abbrev pub UniqueIds : List PipelineStage → Type 0
UniqueIds [] = Unit
UniqueIds (s ∷ ss) = All (λ t. t.id ≢ s.id) ss × UniqueIds ss

abbrev pub AllCompleted : List (StageId × StageRun) → Type 0
AllCompleted m =
    (id : StageId) (x : StageRun) → lookup id m ≡ some x → x.state ≡ StageState.completed

pub record Inv (p : Pipeline) (r : PipelineRun) : Type 0 where
  pub distinct : Distinct r.stages
  pub ordered : KeepsOrder p r.stages
  pub finished : r.state ≡ PipelineRunState.completed → AllCompleted r.stages

all-AllCompleted :
    (m : List (StageId × StageRun)) → all (λ e. is_completed e.1.state) m ≡ true → AllCompleted m
unfolding lookup
all-AllCompleted [] h id x e = cc
all-AllCompleted ((j, y) ∷ m) h id x e = elim (Bool-cases (str_eq j id)) [
  | inl same ↦ completed_of x.state (ground arith)
  | inr other ↦ all-AllCompleted m (ground arith) id x (rw (other, lookup) at e)
]

-- A run is completed after a call only if it was before, or if the call found all stages completed.
exec-completed :
    (p : Pipeline) (r : PipelineRun) (o : Op)
    → (exec p r o).state ≡ PipelineRunState.completed
    → (r.state ≡ PipelineRunState.completed)
      ⊎ (all (λ e. is_completed e.1.state) (exec p r o).stages ≡ true)
unfolding exec start start_stage start_checked start_found complete_stage complete_found fail_stage
    fail_found cancel
exec-completed p r (starts now) e = ground arith
exec-completed p r (starts_stage id session started now) e = ground arith
exec-completed p r (completes_stage id output done now) e = ground arith
exec-completed p r (fails_stage id error done now) e = ground arith
exec-completed p r (cancels now) e = ground arith

exec-Distinct :
    (p : Pipeline) (r : PipelineRun) (o : Op) → Distinct r.stages → Distinct (exec p r o).stages
unfolding exec start start_stage start_checked start_found complete_stage complete_found
    finish_if_all fail_stage fail_found cancel
exec-Distinct p r (starts now) d = ground arith
exec-Distinct p r (starts_stage id session started now) d = grind (arith, Distinct-adjust)
exec-Distinct p r (completes_stage id output done now) d = grind (arith, Distinct-adjust)
exec-Distinct p r (fails_stage id error done now) d =
    grind (arith, Distinct-adjust, Distinct-map_values)
exec-Distinct p r (cancels now) d = Distinct-map_values skip_pending r.stages d

exec-Inv : (p : Pipeline) (r : PipelineRun) (o : Op) → Inv p r → Inv p (exec p r o)
exec-Inv p r o v = record {
  distinct = exec-Distinct p r o v.distinct;
  ordered = Evolves-KeepsOrder p (exec-Evolves p r o) v.ordered;
  finished = λ e. elim (exec-completed p r o e) [
    | inr now ↦ all-AllCompleted _ now
    | inl before ↦ λ id y there.
        let (x, here, mv) =
          Entry-back (lookup id r.stages) y (rw there at ((exec-Evolves p r o).at id)) in
        Moves-completed mv (v.finished before id x here)
  ];
}

run-Inv : (p : Pipeline) (r : PipelineRun) (os : List Op) → Inv p r → Inv p (run p r os)
unfolding run
run-Inv p r [] v = v
run-Inv p r (o ∷ os) v = run-Inv p (exec p r o) os (exec-Inv p r o v)

Absent-after :
    (s : PipelineStage) (x : StageRun) (m : List (StageId × StageRun)) (ss : List PipelineStage)
    → All (λ t. t.id ≢ s.id) ss
    → All (λ t. Absent t.id m) ss
    → All (λ t. Absent t.id (insert s.id x m)) ss
Absent-after s x m [] u a = tt
Absent-after s x m (t ∷ ss) u a =
    (Absent-insert s.id t.id x m (λ e. u.0 (sym e)) a.0, Absent-after s x m ss u.1 a.1)

collect_runs-Distinct :
    (ss : List PipelineStage) (m : List (StageId × StageRun))
    → UniqueIds ss
    → All (λ s. Absent s.id m) ss
    → Distinct m
    → Distinct (collect_runs m ss)
unfolding collect_runs
collect_runs-Distinct [] m u a d = d
collect_runs-Distinct (s ∷ ss) m u a d =
    collect_runs-Distinct ss (insert s.id (new_stage_run s) m) u.1
      (Absent-after s (new_stage_run s) m ss u.0 a.1)
      (Distinct-insert s.id (new_stage_run s) m a.0 d)

abbrev AllPending : List (StageId × StageRun) → Type 0
AllPending m = (id : StageId) (x : StageRun) → lookup id m ≡ some x → x.state ≡ StageState.pending

insert-AllPending :
    (s : PipelineStage) (m : List (StageId × StageRun))
    → AllPending m
    → AllPending (insert s.id (new_stage_run s) m)
unfolding new_stage_run
insert-AllPending s m h id x e = ground (arith, h id x, lookup-insert s.id id (new_stage_run s) m)

collect_runs-AllPending :
    (ss : List PipelineStage) (m : List (StageId × StageRun))
    → AllPending m
    → AllPending (collect_runs m ss)
unfolding collect_runs
collect_runs-AllPending [] m h = h
collect_runs-AllPending (s ∷ ss) m h =
    collect_runs-AllPending ss (insert s.id (new_stage_run s) m) (insert-AllPending s m h)

nothing-Absent : (ss : List PipelineStage) → All (λ s. Absent {V = StageRun} s.id []) ss
nothing-Absent [] = tt
nothing-Absent (s ∷ ss) = (tt, nothing-Absent ss)

pub new-Inv : (id : String) (p : Pipeline) (now : ℕ) → UniqueIds p.stages → Inv p (new id p now)
unfolding new
new-Inv id p now u = record {
  distinct = collect_runs-Distinct p.stages [] u (nothing-Absent p.stages) tt;
  ordered = λ j x def here begun known.
      absurd
        (begun.0 (collect_runs-AllPending p.stages [] (unfold lookup in (λ k y e. cc)) j x here));
  finished = λ e. cc;
}

-- For a pipeline whose stages have ids of their own, after any calls on a new run: no stage stands
-- twice in its map; a stage that was begun (running, completed or failed) has all its dependencies
-- completed; and a run is `Completed` only if every one of its stages is.
pub run-new-Inv :
    (id : String) (p : Pipeline) (now : ℕ) (os : List Op)
    → UniqueIds p.stages
    → Inv p (run p (new id p now) os)
run-new-Inv id p now os u = run-Inv p (new id p now) os (new-Inv id p now u)
