-- ===== src/Review/Plan.antt =====
-- `plan_review` and `execute_review`. Reading and changing the file system are parameters.
use cuartel.Common.{
  ℕ, zero, suc, ◌+◌, Bool, Option, none, some, List, [], ◌∷◌, ◌++◌, String, length, get_elem?,
  if◌then◌else◌,
}
use cuartel.Review.Defs.{Text, DiffLine, DiffHunk, is_empty, apply_hunks}

pub data DiffKind : Type 0 where
  added : DiffKind
  modified : DiffKind
  deleted : DiffKind

pub record FileDiff : Type 0 where
  pub path : String
  pub kind : DiffKind
  pub binary : Bool
  pub hunks : List DiffHunk

pub record FileReview : Type 0 where
  pub file_index : ℕ
  pub accepted_hunks : List ℕ

-- The numbers from `start` on.
abbrev pub range : ℕ → ℕ → List ℕ
range start zero = []
range start (suc n) = start ∷ range (suc start) n

unfoldable pub accept_all : ℕ → ℕ → FileReview
accept_all file_index hunk_count = record {
  file_index = file_index;
  accepted_hunks = range 0 hunk_count;
}

unfoldable pub reject_all : ℕ → FileReview
reject_all file_index = record { file_index = file_index; accepted_hunks = [] }

pub data ReviewAction : Type 0 where
  write : String → Text → ReviewAction
  delete : String → ReviewAction

pub record ReviewPlan : Type 0 where
  pub actions : List ReviewAction
  pub skipped : List String

pub data Planned : Type 0 where
  plan : ReviewPlan → Planned
  out_of_range : ℕ → Planned
  unreadable : String → Planned
  panicked : Planned

abbrev pub added_text : List DiffLine → Text
added_text [] = []
added_text (DiffLine.context s ∷ ds) = s ++ 10 ∷ added_text ds
added_text (DiffLine.added s ∷ ds) = s ++ 10 ∷ added_text ds
added_text (DiffLine.removed s ∷ ds) = added_text ds

unfoldable pub reconstruct_added : List DiffHunk → Text
reconstruct_added [] = []
reconstruct_added (h ∷ hs) = added_text h.lines ++ reconstruct_added hs

abbrev pub push_action : ReviewPlan → ReviewAction → Planned
push_action p a = plan (record p { actions = p.actions ++ a ∷ [] })

abbrev pub skip : ReviewPlan → String → Planned
skip p path = plan (record p { skipped = p.skipped ++ path ∷ [] })

-- The `?` operator: the first error ends the loop.
infixl 5 ◌>>=◌
abbrev pub ◌>>=◌ : Planned → (ReviewPlan → Planned) → Planned
plan p >>= f = f p
out_of_range i >>= f = out_of_range i
unreadable path >>= f = unreadable path
panicked >>= f = panicked

-- `read` is `read_to_string` of a path under the workspace.
module _ (read : String → Option Text) where
  -- A modified text file.
  abbrev pub plan_modified : FileDiff → List ℕ → ReviewPlan → Planned
  plan_modified diff accepted p = elim (read diff.path) [
    | none ↦ unreadable diff.path
    | some original ↦ elim (apply_hunks original diff.hunks accepted) [
      | none ↦ panicked
      | some result ↦ push_action p (write diff.path result)
    ]
  ]

  unfoldable pub plan_accepted : FileDiff → List ℕ → ReviewPlan → Planned
  unfolding reconstruct_added
  plan_accepted diff accepted p = elim diff.kind [
    | added ↦ push_action p (write diff.path (reconstruct_added diff.hunks))
    | deleted ↦ push_action p (delete diff.path)
    | modified ↦ if diff.binary then skip p diff.path else plan_modified diff accepted p
  ]

  -- One decision.
  unfoldable pub plan_one : List FileDiff → FileReview → ReviewPlan → Planned
  unfolding plan_accepted
  plan_one diffs decision p = elim (get_elem? diffs decision.file_index) [
    | none ↦ out_of_range decision.file_index
    | some diff ↦
        if is_empty decision.accepted_hunks
        then skip p diff.path
        else plan_accepted diff decision.accepted_hunks p
  ]

  unfoldable pub plan_from : List FileDiff → List FileReview → ReviewPlan → Planned
  unfolding plan_one
  plan_from diffs [] p = plan p
  plan_from diffs (d ∷ ds) p = plan_one diffs d p >>= plan_from diffs ds

  unfoldable pub plan_review : List FileDiff → List FileReview → Planned
  unfolding plan_from
  plan_review diffs decisions = plan_from diffs decisions (record { actions = []; skipped = [] })

pub record ExecutionReport : Type 0 where
  pub files_written : ℕ
  pub files_deleted : ℕ
  pub files_skipped : ℕ

-- What the operating system does: `write_file` also creates the directories above the file.
module _ {Fs : Type 0} (exists : Fs → String → Bool) (write_file : Fs → String → Text → Option Fs)
    (remove_file : Fs → String → Option Fs) where
  unfoldable pub execute_from :
      Fs → ExecutionReport → List ReviewAction → Option (Fs × ExecutionReport)
  execute_from fs report [] = some (fs, report)
  execute_from fs report (write path content ∷ actions) = elim (write_file fs path content) [
    | none ↦ none
    | some fs' ↦
        execute_from fs' (record report { files_written = report.files_written + 1 }) actions
  ]
  execute_from fs report (delete path ∷ actions) =
      if exists fs path
      then elim (remove_file fs path) [
        | none ↦ none
        | some fs' ↦
            execute_from fs' (record report { files_deleted = report.files_deleted + 1 }) actions
      ]
      else execute_from fs report actions

  unfoldable pub execute_review : Fs → ReviewPlan → Option (Fs × ExecutionReport)
  unfolding execute_from
  execute_review fs p =
      elim (execute_from fs (record { files_written = 0; files_deleted = 0; files_skipped = 0 })
        p.actions) [
          | none ↦ none
          | some (fs', report) ↦ some (fs', record report { files_skipped = length p.skipped })
        ]
