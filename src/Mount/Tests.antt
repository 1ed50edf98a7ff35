-- ===== src/Mount/Tests.antt =====
-- A small project with a file, an excluded directory and a file below another directory.
use cuartel.Common.{ℕ, ◌≤◌, ◌≡◌, ◌↔◌, refl, some, List, [], ◌∷◌, All}
use cuartel.Common.Sort.{IsSorted, In}
use cuartel.Review.Defs.{Text}
use cuartel.Overlay.{Bytes, bytes_eq}
use cuartel.Mount.{
  directory, file, special, Listing, done, entry, folder, missing, MountOptions, ok, err,
  not_absolute, no_host_root, MountFile, MountPlan, vm_path_for_rel, normalized_mount_point,
  by_vm_path, collect_mount_plan, excluded, not_regular_file, with_batch_size,
}
use cuartel.Mount.Files.{FileAt, Kept}
use cuartel.Mount.Walked.{collect_mount_plan-files}
use cuartel.Mount.Batches.{batches_of, concat, Sized, batches_of-Sized}

-- `.git`, `src`, `a.rs` and `link`
abbrev git : Bytes
git = 46 ∷ 103 ∷ 105 ∷ 116 ∷ []

abbrev src : Bytes
src = 115 ∷ 114 ∷ 99 ∷ []

abbrev a_rs : Bytes
a_rs = 97 ∷ 46 ∷ 114 ∷ 115 ∷ []

abbrev link : Bytes
link = 108 ∷ 110 ∷ 107 ∷ []

abbrev project : Listing
project = entry git (directory (entry a_rs (file (some 5)) done)) (
    entry src (directory (entry a_rs (file (some 3)) done))
      (entry link special (entry a_rs (file (some 7)) done)))

-- `/w`
abbrev point : Text
point = 47 ∷ 119 ∷ []

abbrev options : MountOptions
options = record {
  mount_point = 47 ∷ 119 ∷ 47 ∷ [];
  exclude = git ∷ [];
  max_file_size = 10;
  batch_size = 2;
}

trimmed : normalized_mount_point options.mount_point ≡ ok point
unfolding normalized_mount_point
trimmed = refl

-- The root is refused, but as a path that is not absolute.
root_refused : normalized_mount_point (47 ∷ []) ≡ err (not_absolute (47 ∷ []))
unfolding normalized_mount_point
root_refused = refl

planned :
    collect_mount_plan (folder project) options
    ≡ ok (record {
      directories = (47 ∷ 119 ∷ 47 ∷ src) ∷ [];
      files =
          record { host_path = a_rs ∷ []; vm_path = 47 ∷ 119 ∷ 47 ∷ a_rs; size = 7 }
          ∷ record {
            host_path = src ∷ a_rs ∷ [];
            vm_path = 47 ∷ 119 ∷ 47 ∷ 115 ∷ 114 ∷ 99 ∷ 47 ∷ a_rs;
            size = 3;
          }
          ∷ [];
      skipped =
          record { host_path = git ∷ []; reason = excluded }
          ∷ record { host_path = link ∷ []; reason = not_regular_file }
          ∷ [];
    })
unfolding collect_mount_plan vm_path_for_rel bytes_eq
planned = refl

no_root : collect_mount_plan missing options ≡ err no_host_root
unfolding collect_mount_plan
no_root = refl

collect_mount_plan-files_example :
    (plan : MountPlan) × (collect_mount_plan (folder project) options ≡ ok plan)
    × IsSorted by_vm_path plan.files
    × ((f : MountFile)
        → In f plan.files ↔ (
            FileAt project f.host_path f.size
            × All (Kept options) f.host_path
            × (f.size ≤ options.max_file_size)
            × (vm_path_for_rel point f.host_path ≡ some f.vm_path)))
collect_mount_plan-files_example =
    collect_mount_plan-files options point project trimmed
      ((λ k. ((λ k. tt), tt)), ((λ k. ((λ k. tt), tt)), ((λ k. tt), ((λ k. tt), tt))))

abbrev three : List ℕ
three = 1 ∷ 2 ∷ 3 ∷ []

batches_of-Sized_example :
    (concat (batches_of 2 three) ≡ three) × All (Sized 2) (batches_of 2 three)
batches_of-Sized_example = batches_of-Sized 2 three

two_batches : batches_of 2 three ≡ (1 ∷ 2 ∷ []) ∷ (3 ∷ []) ∷ []
unfolding batches_of
two_batches = refl

at_least_one : (with_batch_size 0 options).batch_size ≡ 1
unfolding with_batch_size
at_least_one = refl
