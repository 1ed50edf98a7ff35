-- ===== src/Overlay/Similar.antt =====
-- The crate `similar` as crates/cuartel-core/src/overlay.rs uses it: `TextDiff::from_lines` with
-- `grouped_ops(3)` and `iter_changes`, an interface with what it promises for texts of lines.
use cuartel.Common.{ℕ, ◌+◌, ◌≤◌, ◌≡◌, false, ◌||◌, List, [], ◌∷◌, ◌++◌, map, ◌==◌, length, All}
use cuartel.Review.Defs.{Text}
use cuartel.Review.Text.{text_of}

-- `similar::ChangeTag`
pub data ChangeTag : Type 0 where
  equal insert delete : ChangeTag

pub record Change : Type 0 where
  pub tag : ChangeTag
  pub value : Text

-- `similar::DiffOp`, with what `iter_changes` gives for it.
pub record DiffOp : Type 0 where
  pub old_lo : ℕ
  pub old_hi : ℕ
  pub new_lo : ℕ
  pub new_hi : ℕ
  pub changes : List Change

abbrev pub last_op : DiffOp → List DiffOp → DiffOp
last_op op [] = op
last_op op (next ∷ ops) = last_op next ops

-- The lines of the old text among the changes, and those of the new one.
abbrev pub old_values : List Change → List Text
old_values [] = []
old_values (c ∷ cs) = elim c.tag [
  | equal ↦ c.value ∷ old_values cs
  | insert ↦ old_values cs
  | delete ↦ c.value ∷ old_values cs
]

abbrev pub new_values : List Change → List Text
new_values [] = []
new_values (c ∷ cs) = elim c.tag [
  | equal ↦ c.value ∷ new_values cs
  | insert ↦ c.value ∷ new_values cs
  | delete ↦ new_values cs
]

abbrev pub changes_of : List DiffOp → List Change
changes_of [] = []
changes_of (op ∷ ops) = op.changes ++ changes_of ops

-- The operations of a group follow each other, and their ranges count the lines of their changes.
abbrev pub Consecutive : ℕ → ℕ → List DiffOp → Type 0
Consecutive i j [] = Unit
Consecutive i j (op ∷ ops) =
    (op.old_lo ≡ i)
    × (op.old_hi ≡ i + length (old_values op.changes))
    × (op.new_lo ≡ j)
    × (op.new_hi ≡ j + length (new_values op.changes))
    × Consecutive op.old_hi op.new_hi ops

-- The groups go through both texts: before each group, and behind the last, the lines are the
-- same. A group without a line of the old text has no context, and stands at the start of both.
abbrev pub Covers : ℕ → ℕ → List Text → List Text → List (List DiffOp) → Type 0
Covers i j os ns [] = os ≡ ns
Covers i j os ns ([] ∷ gs) = ⊥
Covers i j os ns ((op ∷ ops) ∷ gs) =
    let old = old_values (changes_of (op ∷ ops)) in
    let new = new_values (changes_of (op ∷ ops)) in
    (same : List Text) × (os' : List Text) × (ns' : List Text) × (os ≡ same ++ (old ++ os'))
    × (ns ≡ same ++ (new ++ ns'))
    × Consecutive (i + length same) (j + length same) (op ∷ ops)
    × (length old ≡ 0 → (i + length same ≡ 0) × (j + length same ≡ 0))
    × Covers (i + length same + length old) (j + length same + length new) os' ns' gs

-- The ranges of a group do not run backwards.
abbrev pub Ordered : List DiffOp → Type 0
Ordered [] = Unit
Ordered (op ∷ ops) = (op.old_lo ≤ (last_op op ops).old_hi) × (op.new_lo ≤ (last_op op ops).new_hi)

abbrev pub Plain : Text → Type 0
Plain l = All (λ c. ((c == 10) || (c == 13)) ≡ false) l

abbrev pub ended : Text → Text
ended l = l ++ 10 ∷ []

-- `TextDiff::from_lines` with `grouped_ops(3)`, and what it promises for texts of whole lines.
pub record LineDiff : Type 0 where
  pub grouped_ops : Text → Text → List (List DiffOp)
  pub ordered : (old new : Text) → All Ordered (grouped_ops old new)
  pub covers :
      (os ns : List Text)
      → All Plain os
      → All Plain ns
      → Covers 0 0 (map ended os) (map ended ns) (grouped_ops (text_of os) (text_of ns))
