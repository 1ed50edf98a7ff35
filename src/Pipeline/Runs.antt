-- ===== src/Pipeline/Runs.antt =====
-- Sequences of calls on one run of a pipeline.
use cuartel.Common.{
  ℕ, String, ◌≡◌, refl, sym, subst, ◌∙◌, ◌≢◌, ◌⊎◌, inl, inr, Option, none, some, List, [], ◌∷◌, All,
  All-mono, arith,
}
use cuartel.Common.Dict.{lookup}
use cuartel.Pipeline.Defs.{
  StageId, PipelineStage, StageState, Pipeline, StageRun, PipelineRun, stage,
}
use cuartel.Pipeline.Exec.{start, start_stage, complete_stage, fail_stage, cancel}
use cuartel.Pipeline.Moves.{
  Moves, stays, begins, completes, fails, skips, Entry, Evolves, Done, Ready, Evolves-refl,
  start_stage-Evolves, complete_stage-Evolves, fail_stage-Evolves, cancel-Evolves,
}

pub data Op : Type 0 where
  starts : ℕ → Op
  starts_stage : StageId → String → ℕ → ℕ → Op
  completes_stage : StageId → String → ℕ → ℕ → Op
  fails_stage : StageId → String → ℕ → ℕ → Op
  cancels : ℕ → Op

-- The run after a call. A call that returns an error leaves it unchanged.
unfoldable pub exec : Pipeline → PipelineRun → Op → PipelineRun
exec p r (starts now) = (start r now).0
exec p r (starts_stage id session started now) = (start_stage r id session p started now).0
exec p r (completes_stage id output done now) = (complete_stage r id output done now).0
exec p r (fails_stage id error done now) = (fail_stage r id error done now).0
exec p r (cancels now) = cancel r now

unfoldable pub run : Pipeline → PipelineRun → List Op → PipelineRun
run p r [] = r
run p r (o ∷ os) = run p (exec p r o) os

start-stages : (r : PipelineRun) (now : ℕ) → (start r now).0.stages ≡ r.stages
unfolding start
start-stages r now = ground arith

-- No call adds or drops a stage, and each stage moves along one edge at most: from pending to
-- running, only if all its dependencies are completed at that moment; from running to completed or
-- failed; from pending to skipped. So completed, failed and skipped stages never change.
pub exec-Evolves :
    (p : Pipeline) (r : PipelineRun) (o : Op)
    → Evolves (Ready p r.stages) r.stages (exec p r o).stages
unfolding exec
exec-Evolves p r (starts now) = rw (start-stages r now) (Evolves-refl _ r.stages)
exec-Evolves p r (starts_stage id session started now) =
    start_stage-Evolves r id session p started now
exec-Evolves p r (completes_stage id output done now) =
    complete_stage-Evolves _ r id output done now
exec-Evolves p r (fails_stage id error done now) = fail_stage-Evolves _ r id error done now
exec-Evolves p r (cancels now) = cancel-Evolves _ r now

abbrev pub IsBegun : StageState → Type 0
IsBegun s = (s ≢ StageState.pending) × (s ≢ StageState.skipped)

Moves-back : {B : Type 0} {s t : StageState} → Moves B s t → IsBegun t → IsBegun s ⊎ B
Moves-back stays h = inl h
Moves-back (begins b) h = inr b
Moves-back completes h = inl (λ e. cc, λ e. cc)
Moves-back fails h = inl (λ e. cc, λ e. cc)
Moves-back skips h = absurd (h.1 refl)

pub Moves-completed :
    {B : Type 0} {s t : StageState}
    → Moves B s t
    → s ≡ StageState.completed
    → t ≡ StageState.completed
Moves-completed stays e = e
Moves-completed (begins b) e = cc
Moves-completed completes e = refl
Moves-completed fails e = cc
Moves-completed skips e = cc

-- The entry before one that is known after, and the other way round.
pub Entry-back :
    {B : Type 0} (o : Option StageRun) (y : StageRun)
    → Entry B o (some y)
    → (x : StageRun) × (o ≡ some x) × Moves B x.state y.state
Entry-back none y h = elim h [ ]
Entry-back (some x) y h = (x, refl, h)

Entry-on :
    {B : Type 0} (x : StageRun) (o : Option StageRun)
    → Entry B (some x) o
    → (y : StageRun) × (o ≡ some y) × Moves B x.state y.state
Entry-on x none h = elim h [ ]
Entry-on x (some y) h = (y, refl, h)

module _ {B : StageId → Type 0} {m n : List (StageId × StageRun)} (v : Evolves B m n) where
  pub Evolves-Done : (d : StageId) → Done m d → Done n d
  Evolves-Done d (x, here, c) =
      let (y, there, mv) = Entry-on x (lookup d n) (rw here at (v.at d)) in
      (y, there, Moves-completed mv c)

-- Every stage that was begun had all its dependencies completed, and they still are.
abbrev pub KeepsOrder : Pipeline → List (StageId × StageRun) → Type 0
KeepsOrder p m =
    (id : StageId) (x : StageRun) (def : PipelineStage)
    → lookup id m ≡ some x
    → IsBegun x.state
    → stage p id ≡ some def
    → All (Done m) def.depends_on

pub Evolves-KeepsOrder :
    (p : Pipeline) {m n : List (StageId × StageRun)}
    → Evolves (Ready p m) m n
    → KeepsOrder p m
    → KeepsOrder p n
Evolves-KeepsOrder p {m} {n} v h id y def there begun known =
    let (x, here, mv) = Entry-back (lookup id m) y (rw there at (v.at id)) in
    All-mono (Done m) (Done n) def.depends_on (Evolves-Done v) (elim (Moves-back mv begun) [
      | inl before ↦ h id x def here before known
      | inr (def', known', done) ↦
          subst (λ d. All (Done m) d.depends_on) (same_def (sym known' ∙ known)) done
    ])
  where
    same_def : {a b : PipelineStage} → some a ≡ some b → a ≡ b
    same_def e = cc
