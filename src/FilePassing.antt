-- ===== src/FilePassing.antt =====
-- crates/cuartel-core/src/file_passing.rs: which artifacts of a stage are handed to which later
-- stage. The time at which an artifact is made is an argument.
pub mod Produced
pub mod Gathered
pub mod Planned
mod Tests
use Prim.Native.String.{◌++◌ as str_append}
use cuartel.Common.{
  ℕ, String, Bool, true, false, not, ◌&&◌, ◌++◌, map, List, [], ◌∷◌, Option, none, some, str_eq,
  if◌then◌else◌,
}
use cuartel.Common.Dict.{lookup, insert}
use cuartel.Pipeline.Defs.{StageId}

-- `ArtifactId` is a newtype of a text.
abbrev pub ArtifactId : Type 0
ArtifactId = String

pub data ArtifactKind : Type 0 where
  file directory : ArtifactKind

pub record Artifact : Type 0 where
  pub id : ArtifactId
  pub kind : ArtifactKind
  pub path : String
  pub producer : StageId
  pub size_bytes : Option ℕ
  pub content_hash : Option String
  pub created_at : ℕ

-- `Artifact::file` and `Artifact::directory`, at a time
unfoldable pub artifact_of : ArtifactKind → ℕ → ArtifactId → String → StageId → Artifact
artifact_of kind now id path producer = record {
  id = id;
  kind = kind;
  path = path;
  producer = producer;
  size_bytes = none;
  content_hash = none;
  created_at = now;
}

unfoldable pub with_size : ℕ → Artifact → Artifact
with_size size a = record a { size_bytes = some size }

unfoldable pub with_hash : String → Artifact → Artifact
with_hash hash a = record a { content_hash = some hash }

pub record ArtifactRef : Type 0 where
  pub artifact_id : ArtifactId
  pub source_stage : StageId

pub record StageManifest : Type 0 where
  pub stage_id : StageId
  pub produces : List Artifact
  pub consumes : List ArtifactRef

-- `StageManifest::new`
unfoldable pub new_manifest : StageId → StageManifest
new_manifest stage_id = record { stage_id = stage_id; produces = []; consumes = [] }

unfoldable pub produce : Artifact → StageManifest → StageManifest
produce a m = record m { produces = m.produces ++ a ∷ [] }

unfoldable pub consume : ArtifactId → StageId → StageManifest → StageManifest
consume artifact_id source_stage m = record m {
  consumes = m.consumes ++ record { artifact_id = artifact_id; source_stage = source_stage } ∷ [];
}

pub data FilePassingError : Type 0 where
  artifact_not_found : ArtifactId → StageId → FilePassingError
  producer_mismatch : ArtifactId → StageId → StageId → FilePassingError
  duplicate_artifact : ArtifactId → FilePassingError

pub data Result (A : Type 0) : Type 0 where
  ok : A → Result A
  err : FilePassingError → Result A

pub record TransferEntry : Type 0 where
  pub artifact_id : ArtifactId
  pub source_stage : StageId
  pub target_stage : StageId
  pub source_vm_path : String
  pub target_vm_path : String
  pub kind : ArtifactKind

unfoldable pub vm_output_path : Artifact → String
vm_output_path a = str_append "/handoff/output/" a.path

unfoldable pub vm_output_dir : StageId → String
vm_output_dir stage = "/handoff/output"

unfoldable pub vm_input_dir : StageId → StageId → String
vm_input_dir stage source = str_append "/handoff/input/" source

-- `format!` of the input file of a stage, also in `vm_input_file`.
unfoldable pub vm_input_file : StageId → String → String
vm_input_file source path = str_append "/handoff/input/" (str_append source (str_append "/" path))

-- `BTreeMap<(&ArtifactId, &StageId), &Artifact>`; the order of its keys is not read.
abbrev pub Produced : Type 0
Produced = List (ArtifactId × StageId × Artifact)

abbrev pub same : ArtifactId → StageId → ArtifactId → StageId → Bool
same id stage at_id at_stage = str_eq at_id id && str_eq at_stage stage

unfoldable pub find : ArtifactId → StageId → Produced → Option Artifact
find id stage [] = none
find id stage ((i, s, a) ∷ rest) = if same id stage i s then some a else find id stage rest

unfoldable pub add : ArtifactId → StageId → Artifact → Produced → Produced
add id stage new [] = (id, stage, new) ∷ []
add id stage new ((i, s, a) ∷ rest) =
    let later = (i, s, a) ∷ add id stage new rest in
    if same id stage i s then (i, s, new) ∷ rest else later

-- The two maps of the first loop.
pub record Seen : Type 0 where
  pub produced : Produced
  pub ids_seen : List (ArtifactId × StageId)

-- The test for a stage that has the id already.
unfoldable pub taken : StageId → Option StageId → Bool
taken stage none = false
taken stage (some existing) = not (str_eq existing stage)

unfoldable pub record_artifact : StageId → Artifact → Seen → Seen
unfolding add
record_artifact stage a seen = record {
  produced = add a.id stage a seen.produced;
  ids_seen = insert a.id stage seen.ids_seen;
}

unfoldable pub collect_produced : StageId → List Artifact → Seen → Result Seen
unfolding record_artifact taken
collect_produced stage [] seen = ok seen
collect_produced stage (a ∷ artifacts) seen =
    let rest = collect_produced stage artifacts (record_artifact stage a seen) in
    if taken stage (lookup a.id seen.ids_seen) then err (duplicate_artifact a.id) else rest

infixl 5 ◌>>=◌
abbrev pub ◌>>=◌ : {A B : Type 0} → Result A → (A → Result B) → Result B
ok a >>= f = f a
err e >>= f = err e

unfoldable pub collect_all : List StageManifest → Seen → Result Seen
unfolding collect_produced
collect_all [] seen = ok seen
collect_all (m ∷ ms) seen = do
  after ← collect_produced m.stage_id m.produces seen
  collect_all ms after

-- One transfer, from the artifact that the map has for it.
unfoldable pub transfer_of : StageId → ArtifactRef → Artifact → Result TransferEntry
unfolding vm_output_path vm_input_file
transfer_of target r a =
    if str_eq a.producer r.source_stage
    then ok (record {
      artifact_id = r.artifact_id;
      source_stage = r.source_stage;
      target_stage = target;
      source_vm_path = vm_output_path a;
      target_vm_path = vm_input_file r.source_stage a.path;
      kind = a.kind;
    })
    else err (producer_mismatch r.artifact_id r.source_stage a.producer)

unfoldable pub transfer : Produced → StageId → ArtifactRef → Result TransferEntry
unfolding find transfer_of
transfer produced target r = elim (find r.artifact_id r.source_stage produced) [
  | none ↦ err (artifact_not_found r.artifact_id r.source_stage)
  | some a ↦ transfer_of target r a
]

-- The consumed artifacts of all manifests, in the order of the two loops.
unfoldable pub transfers : Produced → List (StageId × ArtifactRef) → Result (List TransferEntry)
unfolding transfer
transfers produced [] = ok []
transfers produced ((target, r) ∷ rest) = do
  t ← transfer produced target r
  ts ← transfers produced rest
  ok (t ∷ ts)

abbrev pub refs_of : StageManifest → List (StageId × ArtifactRef)
refs_of m = map (λ r. (m.stage_id, r)) m.consumes

abbrev pub consumed : List StageManifest → List (StageId × ArtifactRef)
consumed [] = []
consumed (m ∷ ms) = refs_of m ++ consumed ms

abbrev pub nothing_seen : Seen
nothing_seen = record { produced = []; ids_seen = [] }

unfoldable pub plan_transfers : List StageManifest → Result (List TransferEntry)
unfolding collect_all transfers
plan_transfers manifests = do
  seen ← collect_all manifests nothing_seen
  transfers seen.produced (consumed manifests)
