-- ===== src/FilePassing/Tests.antt =====
-- A coder that hands its patch to a reviewer.
use cuartel.Common.{◌≡◌, refl, [], ◌∷◌}
use cuartel.Common.Dict.{lookup, insert}
use cuartel.FilePassing.{
  artifact_of, new_manifest, produce, consume, with_size, Artifact, file, StageManifest, ok, err,
  artifact_not_found, duplicate_artifact, consumed, plan_transfers,
}
use cuartel.FilePassing.Produced.{made}
use cuartel.FilePassing.Planned.{Plans, plan_transfers-Plans}

abbrev patch : Artifact
patch = artifact_of file 1000 "patch" "out.patch" "coder"

abbrev coder : StageManifest
coder = produce patch (new_manifest "coder")

abbrev reviewer : StageManifest
reviewer = consume "patch" "coder" (new_manifest "reviewer")

abbrev copycat : StageManifest
copycat = produce (with_size 12 patch) (new_manifest "copycat")

one_transfer :
    plan_transfers (coder ∷ reviewer ∷ [])
    ≡ ok (
        record {
          artifact_id = "patch";
          source_stage = "coder";
          target_stage = "reviewer";
          source_vm_path = "/handoff/output/out.patch";
          target_vm_path = "/handoff/input/coder/out.patch";
          kind = file;
        }
        ∷ [])
unfolding plan_transfers lookup insert artifact_of new_manifest produce consume with_size
one_transfer = refl

nobody_made_it : plan_transfers (reviewer ∷ []) ≡ err (artifact_not_found "patch" "coder")
unfolding plan_transfers artifact_of new_manifest produce consume with_size
nobody_made_it = refl

made_twice : plan_transfers (coder ∷ copycat ∷ []) ≡ err (duplicate_artifact "patch")
unfolding plan_transfers lookup insert artifact_of new_manifest produce consume with_size
made_twice = refl

plan_transfers-Plans_example :
    Plans
      (made (coder ∷ reviewer ∷ []))
      (consumed (coder ∷ reviewer ∷ []))
      (plan_transfers (coder ∷ reviewer ∷ []))
plan_transfers-Plans_example = plan_transfers-Plans (coder ∷ reviewer ∷ [])
