-- ===== src/Review/Apply.antt =====
-- What `apply_hunks` returns for hunks that fit the original.
use cuartel.Common.{
  ℕ, suc, ◌+◌, ◌≡◌, refl, sym, ap, ◌∙◌, subst, some, List, [], ◌∷◌, ◌++◌, arith, All, length, drop,
}
use cuartel.Review.Defs.{Text, DiffHunk, old_side, lines, join, finish, apply_to_lines, apply_hunks}
use cuartel.Review.Mix.{Segment, original_lines, mixed_lines, Fits, drop-append, hunk_loop-mixed}
use cuartel.Review.Text.{
  text_of, Clean, lines-text_of, text_of-whole, EndsFilled, finish-text_of, finish-blank,
  crlf_text_of, lines-crlf_text_of, crlf_text_of-whole,
}

applied :
    (accepted : List ℕ) (ss : List Segment) (hs : List DiffHunk) (tail : List Text)
    (original : Text)
    → lines original ≡ original_lines ss ++ tail
    → Fits 0 ss hs
    → apply_hunks original hs accepted
      ≡ some (finish original (join (mixed_lines accepted 0 ss ++ tail)))
unfolding apply_hunks apply_to_lines
applied accepted ss hs tail original e f =
    let start : length {A = Text} [] + length (original_lines ss) ≡ length (original_lines ss) =
      omega arith in
    ap (λ ls. apply_to_lines original ls hs accepted) e
    ∙ rw (hunk_loop-mixed accepted 0 [] ss hs tail f, apply_to_lines)
        (ap (λ t. some (finish original (join (mixed_lines accepted 0 ss ++ t))))
          (ap (λ n. drop n (original_lines ss ++ tail)) start
            ∙ drop-append (original_lines ss) tail))

-- Where hunks fit a text of clean lines, `apply_hunks` returns the text with the new side of each
-- accepted hunk in place of its old side and everything else as it was, provided that the last
-- line of the outcome is not empty.
pub apply_hunks-mixed :
    (accepted : List ℕ) (ss : List Segment) (hs : List DiffHunk) (tail : List Text)
    → Fits 0 ss hs
    → All Clean (original_lines ss ++ tail)
    → All Clean (mixed_lines accepted 0 ss ++ tail)
    → EndsFilled (mixed_lines accepted 0 ss ++ tail)
    → apply_hunks (text_of (original_lines ss ++ tail)) hs accepted
      ≡ some (text_of (mixed_lines accepted 0 ss ++ tail))
apply_hunks-mixed accepted ss hs tail f o m e =
    let ls = original_lines ss ++ tail in
    applied accepted ss hs tail (text_of ls) (lines-text_of ls o) f
    ∙ ap some
        (finish-text_of (text_of ls) (mixed_lines accepted 0 ss ++ tail) (text_of-whole ls) m e)

mixed_lines-none : (idx : ℕ) (ss : List Segment) → mixed_lines [] idx ss ≡ original_lines ss
mixed_lines-none idx [] = refl
mixed_lines-none idx (s ∷ ss) =
    ap (λ l. s.before ++ (old_side s.body ++ l)) (mixed_lines-none (suc idx) ss)

-- With no hunk accepted, a text of clean lines comes back as it was, provided that its last line is
-- not empty.
pub apply_hunks-rejected :
    (ss : List Segment) (hs : List DiffHunk) (tail : List Text)
    → Fits 0 ss hs
    → All Clean (original_lines ss ++ tail)
    → EndsFilled (original_lines ss ++ tail)
    → apply_hunks (text_of (original_lines ss ++ tail)) hs []
      ≡ some (text_of (original_lines ss ++ tail))
apply_hunks-rejected ss hs tail f o e =
    let same : mixed_lines [] 0 ss ++ tail ≡ original_lines ss ++ tail =
      ap (λ l. l ++ tail) (mixed_lines-none 0 ss) in
    apply_hunks-mixed [] ss hs tail f o (subst (All Clean) (sym same) o)
      (subst EndsFilled (sym same) e)
    ∙ ap (λ l. some (text_of l)) same

-- Where the outcome should end in an empty line, that line is lost: the text that `apply_hunks`
-- returns ends with the line before it.
pub apply_hunks-drops_blank :
    (accepted : List ℕ) (ss : List Segment) (hs : List DiffHunk) (tail ms : List Text)
    → Fits 0 ss hs
    → All Clean (original_lines ss ++ tail)
    → mixed_lines accepted 0 ss ++ tail ≡ ms ++ [] ∷ []
    → apply_hunks (text_of (original_lines ss ++ tail)) hs accepted ≡ some (text_of ms)
apply_hunks-drops_blank accepted ss hs tail ms f o e =
    let ls = original_lines ss ++ tail in
    applied accepted ss hs tail (text_of ls) (lines-text_of ls o) f
    ∙ ap (λ l. some (finish (text_of ls) (join l))) e
    ∙ ap some (finish-blank (text_of ls) ms)

-- In a text with carriage returns every line loses its own, whichever hunks are accepted.
pub apply_hunks-crlf :
    (accepted : List ℕ) (ss : List Segment) (hs : List DiffHunk) (tail : List Text)
    → Fits 0 ss hs
    → All Clean (original_lines ss ++ tail)
    → All Clean (mixed_lines accepted 0 ss ++ tail)
    → EndsFilled (mixed_lines accepted 0 ss ++ tail)
    → apply_hunks (crlf_text_of (original_lines ss ++ tail)) hs accepted
      ≡ some (text_of (mixed_lines accepted 0 ss ++ tail))
apply_hunks-crlf accepted ss hs tail f o m e =
    let ls = original_lines ss ++ tail in
    applied accepted ss hs tail (crlf_text_of ls) (lines-crlf_text_of ls o) f
    ∙ ap some (
        finish-text_of (crlf_text_of ls) (mixed_lines accepted 0 ss ++ tail) (crlf_text_of-whole ls)
          m e)
