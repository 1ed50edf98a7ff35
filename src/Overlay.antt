-- ===== src/Overlay.antt =====
-- crates/cuartel-core/src/overlay.rs: the diff of two trees of files. The crate `similar` is the
-- interface `LineDiff`. A subtraction that would fall below zero panics, which is `none`.
pub mod Utf8
pub mod Similar
pub mod Hunks
pub mod Accepted
pub mod Trees
pub mod Reports
pub mod Unified
mod Tests
use Prim.Native.String.{[] as nil, ◌∷◌ as cons}
use Prim.Native.Char.{code}
use Prim.Native.Nat.{compare, Ordering}
use cuartel.Common.{
  ℕ, suc, ◌+◌, ◌-◌, ◌≤◌, ◌≡◌, Bool, true, false, not, ◌&&◌, ◌||◌, Option, none, some, List, [], ◌∷◌,
  ◌++◌, map, leb, ltb, ◌==◌, String, length, All, str_eq, if◌then◌else◌,
}
use cuartel.Common.Dict.{lookup, key_lt}
use cuartel.Common.Sort.{sort_by}
use cuartel.Review.Defs.{Text, DiffLine, DiffHunk}
use cuartel.Review.Plan.{DiffKind, FileDiff}
use cuartel.Review.Text.{text_of}
use cuartel.Overlay.Utf8.{from_utf8}
use cuartel.Overlay.Similar.{
  ChangeTag, Change, DiffOp, LineDiff, last_op, old_values, new_values, changes_of, Consecutive,
  Covers, Ordered, Plain, ended, equal, insert, delete,
}

infixl 5 ◌>>=◌
abbrev pub ◌>>=◌ : {A B : Type 0} → Option A → (A → Option B) → Option B
some a >>= f = f a
none >>= f = none

unfoldable pub strip_trailing_newline : Text → Text
strip_trailing_newline [] = []
strip_trailing_newline (c ∷ []) = if c == 10 then [] else c ∷ []
strip_trailing_newline (c ∷ (d ∷ [])) =
    if (c == 13) && (d == 10) then [] else if d == 10 then c ∷ [] else c ∷ d ∷ []
strip_trailing_newline (c ∷ (d ∷ (e ∷ t))) = c ∷ strip_trailing_newline (d ∷ e ∷ t)

unfoldable pub diff_line : Change → DiffLine
unfolding strip_trailing_newline
diff_line c = elim c.tag [
  | equal ↦ DiffLine.context (strip_trailing_newline c.value)
  | insert ↦ DiffLine.added (strip_trailing_newline c.value)
  | delete ↦ DiffLine.removed (strip_trailing_newline c.value)
]

-- One based, and 0 for an empty side.
abbrev pub start_of : ℕ → ℕ → ℕ
start_of count lo = if count == 0 then 0 else lo + 1

-- The hunk of a group; `none` where a range runs backwards.
unfoldable pub hunk_of : DiffOp → List DiffOp → Option DiffHunk
hunk_of op ops =
    let last = last_op op ops in
    if leb op.old_lo last.old_hi && leb op.new_lo last.new_hi
    then some (record {
      old_start = start_of (last.old_hi - op.old_lo) op.old_lo;
      old_count = last.old_hi - op.old_lo;
      new_start = start_of (last.new_hi - op.new_lo) op.new_lo;
      new_count = last.new_hi - op.new_lo;
      lines = map diff_line (changes_of (op ∷ ops));
    })
    else none

unfoldable pub group_hunks : List (List DiffOp) → Option (List DiffHunk)
unfolding hunk_of
group_hunks [] = some []
group_hunks ([] ∷ gs) = group_hunks gs
group_hunks ((op ∷ ops) ∷ gs) = do h ← hunk_of op ops; hs ← group_hunks gs; some (h ∷ hs)

-- The content of a file.
abbrev pub Bytes : Type 0
Bytes = List ℕ

-- `BTreeMap<PathBuf, Vec<u8>>`; a path is the text of it that has no double separator.
abbrev pub Tree : Type 0
Tree = List (String × Bytes)

unfoldable pub bytes_eq : Bytes → Bytes → Bool
bytes_eq [] [] = true
bytes_eq [] (b ∷ bs) = false
bytes_eq (a ∷ more) [] = false
bytes_eq (a ∷ more) (b ∷ bs) = (a == b) && bytes_eq more bs

-- The order of paths is that of their components: the separator stands before every character.
abbrev pub rank : ℕ → ℕ
rank c = if c == 47 then 0 else suc c

abbrev pub path_lt : String → String → Bool
path_lt s nil = false
path_lt nil (cons d t) = true
path_lt (cons c s) (cons d t) =
    let rest = path_lt s t in
    elim (compare (rank (code c)) (rank (code d))) [
      | Ordering.lt ↦ true
      | Ordering.eq ↦ rest
      | Ordering.gt ↦ false
    ]

-- A call of `build_file_diff`.
pub record Edit : Type 0 where
  pub path : String
  pub old : Bytes
  pub new : Bytes
  pub kind : DiffKind

-- The loop over the overlay.
unfoldable pub overlay_edits : Tree → Tree → List Edit
unfolding lookup bytes_eq
overlay_edits base [] = []
overlay_edits base ((path, new) ∷ rest) =
    let later = overlay_edits base rest in
    elim (lookup path base) [
      | none ↦ record { path = path; old = []; new = new; kind = DiffKind.added } ∷ later
      | some old ↦
          if bytes_eq old new
          then later
          else record { path = path; old = old; new = new; kind = DiffKind.modified } ∷ later
    ]

-- The loop over the base.
unfoldable pub base_edits : Tree → Tree → List Edit
unfolding lookup
base_edits overlay [] = []
base_edits overlay ((path, old) ∷ rest) =
    let later = base_edits overlay rest in
    elim (lookup path overlay) [
      | none ↦ record { path = path; old = old; new = []; kind = DiffKind.deleted } ∷ later
      | some new ↦ later
    ]

module _ (d : LineDiff) where
  unfoldable pub text_hunks : Text → Text → Option (List DiffHunk)
  unfolding group_hunks
  text_hunks old new = group_hunks (d.grouped_ops old new)

  unfoldable pub build_file_diff : Edit → Option FileDiff
  unfolding from_utf8 text_hunks
  build_file_diff e = elim (from_utf8 e.old) [
    | none ↦ some (record { path = e.path; kind = e.kind; binary = true; hunks = [] })
    | some o ↦ elim (from_utf8 e.new) [
      | none ↦ some (record { path = e.path; kind = e.kind; binary = true; hunks = [] })
      | some n ↦ do
        hs ← text_hunks o n
        some (record { path = e.path; kind = e.kind; binary = false; hunks = hs })
    ]
  ]

  unfoldable pub build_all : List Edit → Option (List FileDiff)
  unfolding build_file_diff
  build_all [] = some []
  build_all (e ∷ es) = do diff ← build_file_diff e; rest ← build_all es; some (diff ∷ rest)

  unfoldable pub diff_trees : Tree → Tree → Option (List FileDiff)
  unfolding build_all overlay_edits base_edits sort_by
  diff_trees base overlay = do
    out ← build_all (overlay_edits base overlay ++ base_edits overlay base)
    some (sort_by (λ a b. path_lt a.path b.path) out)
