-- ===== src/Overlay/Accepted.antt =====
-- The hunks of `text_hunks` in `apply_hunks` of crates/cuartel-core/src/review.rs.
use cuartel.Common.{
  ℕ, zero, suc, ◌+◌, ◌≤◌, ◌<◌, ◌≡◌, refl, sym, ap, ◌∙◌, subst, true, false, some, List, [], ◌∷◌,
  ◌++◌, map, ◌==◌, length, All, arith, Bool-cases, inl, inr,
}
use cuartel.Review.Defs.{Text, DiffHunk, strip_cr, new_side, old_side, contains, apply_hunks}
use cuartel.Review.Mix.{Segment, original_lines, mixed_lines, Fits}
use cuartel.Review.Plan.{range, accept_all, reject_all}
use cuartel.Review.Text.{text_of, Clean, EndsFilled}
use cuartel.Review.Apply.{apply_hunks-mixed, apply_hunks-rejected}
use cuartel.Overlay.{text_hunks}
use cuartel.Overlay.Similar.{Plain, ended, LineDiff}
use cuartel.Overlay.Hunks.{new_lines, strip_all-ended, Covers-Exchange}

strip_cr-Plain : (l : Text) → Plain l → strip_cr l ≡ l
unfolding strip_cr
strip_cr-Plain [] h = refl
strip_cr-Plain (c ∷ []) (h, hs) = ground arith
strip_cr-Plain (c ∷ (d ∷ l)) (h, hs) = ap (λ r. c ∷ r) (strip_cr-Plain (d ∷ l) hs)

no_newlines : (l : Text) → Plain l → All (λ c. (c == 10) ≡ false) l
no_newlines [] h = tt
no_newlines (c ∷ l) (h, hs) = (ground arith, no_newlines l hs)

pub Plain-Clean : (ls : List Text) → All Plain ls → All Clean ls
Plain-Clean [] h = tt
Plain-Clean (l ∷ ls) (h, hs) = ((no_newlines l h, strip_cr-Plain l h), Plain-Clean ls hs)

range-contains : (start n k : ℕ) → start ≤ k → k < start + n → contains (range start n) k ≡ true
range-contains start zero k a b = absurd (omega arith)
range-contains start (suc n) k a b = elim (Bool-cases (start == k)) [
  | inl e ↦ rw e refl
  | inr e ↦ rw e (range-contains (suc start) n k (ground arith) (omega arith))
]

mixed_lines-all :
    (accepted : List ℕ) (idx : ℕ) (ss : List Segment)
    → ((k : ℕ) → idx ≤ k → k < idx + length ss → contains accepted k ≡ true)
    → mixed_lines accepted idx ss ≡ new_lines ss
mixed_lines-all accepted idx [] h = refl
mixed_lines-all accepted idx (s ∷ ss) h = rw (h idx (omega arith) (omega arith)) (
    ap (λ l. s.before ++ (new_side s.body ++ l))
      (mixed_lines-all accepted (suc idx) ss (λ k a b. h k (omega arith) (omega arith))))

Fits-length :
    (i : ℕ) (ss : List Segment) (hs : List DiffHunk) → Fits i ss hs → length ss ≡ length hs
Fits-length i [] [] f = refl
Fits-length i [] (h ∷ hs) f = absurd f
Fits-length i (s ∷ ss) [] f = absurd f
Fits-length i (s ∷ ss) (h ∷ hs) f =
    ap suc (Fits-length (i + length s.before + length (old_side s.body)) ss hs f.3)

-- For two texts of whole lines without carriage returns, of which the last is not empty,
-- `text_hunks` gives hunks with which `apply_hunks` turns the old text into the new one when all are
-- accepted, and returns the old one when none is.
pub apply_hunks-text_hunks :
    (d : LineDiff) (file_index : ℕ) (os ns : List Text)
    → All Plain os
    → All Plain ns
    → EndsFilled os
    → EndsFilled ns
    → (hs : List DiffHunk) × (text_hunks d (text_of os) (text_of ns) ≡ some hs)
      × (apply_hunks (text_of os) hs (accept_all file_index (length hs)).accepted_hunks
          ≡ some (text_of ns))
      × (apply_hunks (text_of os) hs (reject_all file_index).accepted_hunks ≡ some (text_of os))
unfolding text_hunks accept_all reject_all
apply_hunks-text_hunks d file_index os ns po pn eo en =
    let x =
      Covers-Exchange 0 0 (map ended os) (map ended ns) (d.grouped_ops (text_of os) (text_of ns))
        (d.covers os ns po pn) in
    let accepted = range 0 (length x.hunks) in
    let count = Fits-length 0 x.segments x.hunks x.fits in
    let original : original_lines x.segments ++ x.tail ≡ os = x.original ∙ strip_all-ended os po in
    let all : mixed_lines accepted 0 x.segments ≡ new_lines x.segments =
      mixed_lines-all accepted 0 x.segments
        (λ k a b. range-contains 0 (length x.hunks) k a (omega (arith, count))) in
    let mixed : mixed_lines accepted 0 x.segments ++ x.tail ≡ ns =
      ap (λ l. l ++ x.tail) all ∙ x.exchanged ∙ strip_all-ended ns pn in
    let co = subst (All Clean) (sym original) (Plain-Clean os po) in
    let cn = subst (All Clean) (sym mixed) (Plain-Clean ns pn) in
    (
      x.hunks,
      x.made,
      ap (λ t. apply_hunks (text_of t) x.hunks accepted) (sym original)
          ∙ apply_hunks-mixed accepted x.segments x.hunks x.tail x.fits co cn
              (subst EndsFilled (sym mixed) en)
          ∙ ap (λ t. some (text_of t)) mixed,
      ap (λ t. apply_hunks (text_of t) x.hunks []) (sym original)
          ∙ apply_hunks-rejected x.segments x.hunks x.tail x.fits co
              (subst EndsFilled (sym original) eo)
          ∙ ap (λ t. some (text_of t)) original,
    )
