-- ===== src/Review/Tests.antt =====
-- A file of three lines with one hunk, accepted and rejected.
use cuartel.Common.{◌≡◌, refl, inl, false, Option, some, List, [], ◌∷◌, ◌++◌, String, All, arith}
use cuartel.Review.Defs.{Text, DiffLine, DiffHunk, strip_cr, apply_hunks, old_side, new_side}
use cuartel.Review.Mix.{Segment, original_lines, mixed_lines, Fits}
use cuartel.Review.Text.{text_of, Clean}
use cuartel.Review.Apply.{apply_hunks-mixed}
use cuartel.Review.Plan.{
  DiffKind, FileDiff, FileReview, accept_all, reject_all, ReviewPlan, write, ExecutionReport,
}

abbrev one : Segment
one = record {
  before = (97 ∷ []) ∷ [];
  body = DiffLine.removed (98 ∷ []) ∷ DiffLine.added (66 ∷ []) ∷ [];
}

abbrev hunk : DiffHunk
hunk = record { old_start = 2; old_count = 1; new_start = 2; new_count = 1; lines = one.body }

abbrev tail : List Text
tail = (99 ∷ []) ∷ []

one-Fits : Fits 0 (one ∷ []) (hunk ∷ [])
unfolding old_side
one-Fits = (refl, refl, inl (omega arith, refl), tt)

letter-Clean : Clean (97 ∷ []) × Clean (98 ∷ []) × Clean (99 ∷ []) × Clean (66 ∷ [])
unfolding strip_cr
letter-Clean = (((refl, tt), refl), ((refl, tt), refl), ((refl, tt), refl), ((refl, tt), refl))

abc-Clean : All Clean ((97 ∷ []) ∷ (98 ∷ []) ∷ (99 ∷ []) ∷ [])
abc-Clean = (letter-Clean.0, (letter-Clean.1, (letter-Clean.2, tt)))

changed-Clean : All Clean ((97 ∷ []) ∷ (66 ∷ []) ∷ (99 ∷ []) ∷ [])
changed-Clean = (letter-Clean.0, (letter-Clean.3, (letter-Clean.2, tt)))

apply_hunks-mixed_example :
    apply_hunks (text_of (original_lines (one ∷ []) ++ tail)) (hunk ∷ []) (0 ∷ [])
    ≡ some (text_of (mixed_lines (0 ∷ []) 0 (one ∷ []) ++ tail))
unfolding old_side new_side
apply_hunks-mixed_example =
    apply_hunks-mixed (0 ∷ []) (one ∷ []) (hunk ∷ []) tail one-Fits abc-Clean changed-Clean refl

blank-Clean : All Clean ((97 ∷ []) ∷ (98 ∷ []) ∷ [] ∷ [])
unfolding strip_cr
blank-Clean = (letter-Clean.0, (letter-Clean.1, ((tt, refl), tt)))

abbrev diffs : List FileDiff
diffs =
    record { path = "f.txt"; kind = DiffKind.modified; binary = false; hunks = hunk ∷ [] }
    ∷ record { path = "gone.txt"; kind = DiffKind.deleted; binary = false; hunks = [] }
    ∷ []

abbrev decisions : List FileReview
decisions = accept_all 0 1 ∷ reject_all 1 ∷ []

abbrev read : String → Option Text
read path = some (text_of ((97 ∷ []) ∷ (98 ∷ []) ∷ (99 ∷ []) ∷ []))

abbrev planned : ReviewPlan
planned = record {
  actions = write "f.txt" (text_of ((97 ∷ []) ∷ (66 ∷ []) ∷ (99 ∷ []) ∷ [])) ∷ [];
  skipped = "gone.txt" ∷ [];
}

-- A file system that takes every change, as the list of the paths changed.
abbrev report : ExecutionReport
report = record { files_written = 1; files_deleted = 0; files_skipped = 1 }
