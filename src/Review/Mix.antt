-- ===== src/Review/Mix.antt =====
-- The loop of `apply_hunks` on hunks that fit the original.
use cuartel.Common.{
  ℕ, suc, ◌+◌, ◌-◌, ◌<◌, ◌≡◌, refl, sym, ap, ◌∙◌, subst, ◌⊎◌, inl, inr, true, false, some, List, [],
  ◌∷◌, ◌++◌, ltb, leb, ◌==◌, length, take, drop, length-append, if◌then◌else◌, arith,
}
use cuartel.Review.Defs.{
  Text, DiffLine, DiffHunk, new_side, old_side, contains, hunk_start, gap, hunk_loop,
}

-- A piece of a diff: lines that no hunk covers, and the lines of the hunk behind them.
pub record Segment : Type 0 where
  pub before : List Text
  pub body : List DiffLine

-- The lines of the original that the pieces cover.
abbrev pub original_lines : List Segment → List Text
original_lines [] = []
original_lines (s ∷ ss) = s.before ++ (old_side s.body ++ original_lines ss)

-- The lines with the new side of the accepted hunks; the first hunk has the given index.
abbrev pub mixed_lines : List ℕ → ℕ → List Segment → List Text
mixed_lines accepted idx [] = []
mixed_lines accepted idx (s ∷ ss) =
    s.before
    ++ ((if contains accepted idx then new_side s.body else old_side s.body)
        ++ mixed_lines accepted (suc idx) ss)

-- Where the header of a hunk says that it starts.
abbrev pub StartsAt : DiffHunk → ℕ → Type 0
StartsAt h n =
    ((0 < h.old_count) × (h.old_start ≡ n + 1)) ⊎ ((h.old_count ≡ 0) × (h.new_start - 1 ≡ n))

-- The hunks are those of the pieces, the first of which starts at the given line.
abbrev pub Fits : ℕ → List Segment → List DiffHunk → Type 0
Fits start [] [] = Unit
Fits start [] (h ∷ hs) = ⊥
Fits start (s ∷ ss) [] = ⊥
Fits start (s ∷ ss) (h ∷ hs) =
    (h.lines ≡ s.body)
    × (h.old_count ≡ length (old_side s.body))
    × StartsAt h (start + length s.before)
    × Fits (start + length s.before + length (old_side s.body)) ss hs

pub append_assoc {ℓ} : {A : Type ℓ} (xs ys zs : List A) → (xs ++ ys) ++ zs ≡ xs ++ (ys ++ zs)
append_assoc [] ys zs = refl
append_assoc (x ∷ xs) ys zs = ap (λ r. x ∷ r) (append_assoc xs ys zs)

pub drop-append {ℓ} : {A : Type ℓ} (xs ys : List A) → drop (length xs) (xs ++ ys) ≡ ys
drop-append [] ys = refl
drop-append (x ∷ xs) ys = drop-append xs ys

take-append {ℓ} : {A : Type ℓ} (xs ys : List A) → take (length xs) (xs ++ ys) ≡ xs
take-append [] ys = refl
take-append (x ∷ xs) ys = ap (λ r. x ∷ r) (take-append xs ys)

regroup {ℓ} :
    {A : Type ℓ} (done before old rest tail : List A)
    → done ++ ((before ++ (old ++ rest)) ++ tail) ≡ ((done ++ before) ++ old) ++ (rest ++ tail)
regroup done before old rest tail =
    ap (λ l. done ++ l)
      (append_assoc before (old ++ rest) tail ∙ ap (λ l. before ++ l) (append_assoc old rest tail))
    ∙ sym (append_assoc done before (old ++ (rest ++ tail)))
    ∙ sym (append_assoc (done ++ before) old (rest ++ tail))

gap_lem :
    (done g rest : List Text)
    → gap (done ++ (g ++ rest)) (length done) (length done + length g) ≡ some g
unfolding gap
gap_lem done [] rest =
    let still : ltb (length done) (length done + 0) ≡ false = ground arith in rw still refl
gap_lem done (l ∷ g) rest =
    let on : ltb (length done) (length done + length (l ∷ g)) ≡ true = ground arith in
    let inside : leb (length done + length (l ∷ g)) (length (done ++ ((l ∷ g) ++ rest))) ≡ true =
      ground (arith, length-append done ((l ∷ g) ++ rest), length-append (l ∷ g) rest) in
    let count : length done + length (l ∷ g) - length done ≡ length (l ∷ g) = omega arith in
    rw on (
      rw inside
        (rw (count, drop-append done ((l ∷ g) ++ rest)) (ap some (take-append (l ∷ g) rest))))

StartsAt-hunk_start : (h : DiffHunk) (n : ℕ) → StartsAt h n → hunk_start h ≡ some n
unfolding hunk_start
StartsAt-hunk_start h n (inl (pos, e)) =
    let a : (h.old_count == 0) ≡ false = ground arith in
    let b : (h.old_start == 0) ≡ false = ground arith in
    let c : h.old_start - 1 ≡ n = omega arith in rw (a, b, hunk_start) (ap some c)
StartsAt-hunk_start h n (inr (z, e)) =
    let a : (h.old_count == 0) ≡ true = ground arith in rw (a, hunk_start) (ap some e)

next_cursor : (count start : ℕ) → (if count == 0 then start else start + count) ≡ start + count
next_cursor count start = ground arith

-- From a place in the original on, the loop puts out the mixed lines of the pieces behind it and
-- stops where they end.
pub hunk_loop-mixed :
    (accepted : List ℕ) (idx : ℕ) (done : List Text) (ss : List Segment) (hs : List DiffHunk)
    (tail : List Text)
    → Fits (length done) ss hs
    → hunk_loop (done ++ (original_lines ss ++ tail)) accepted idx (length done) hs
      ≡ some (mixed_lines accepted idx ss, length done + length (original_lines ss))
unfolding hunk_loop
hunk_loop-mixed accepted idx done [] [] tail f = ap (λ n. some ([], n)) (omega arith)
hunk_loop-mixed accepted idx done [] (h ∷ hs) tail f = absurd f
hunk_loop-mixed accepted idx done (s ∷ ss) [] tail f = absurd f
hunk_loop-mixed accepted idx done (s ∷ ss) (h ∷ hs) tail (body, count, starts, f) =
    let old = old_side s.body in
    let rest = original_lines ss in
    let n = length done + length s.before in
    let ls = done ++ ((s.before ++ (old ++ rest)) ++ tail) in
    let done' = (done ++ s.before) ++ old in
    let len : n + length old ≡ length done' =
      omega (arith, length-append (done ++ s.before) old, length-append done s.before) in
    let found : gap ls (length done) n ≡ some s.before =
      ap (λ l. gap (done ++ l) (length done) n) (append_assoc s.before (old ++ rest) tail)
      ∙ gap_lem done s.before ((old ++ rest) ++ tail) in
    let cursor : (if h.old_count == 0 then n else n + h.old_count) ≡ length done' =
      next_cursor h.old_count n ∙ ap (λ c. n + c) count ∙ len in
    let ih =
      hunk_loop-mixed accepted (suc idx) done' ss hs tail (subst (λ k. Fits k ss hs) len f) in
    let rec : hunk_loop ls accepted (suc idx) (if h.old_count == 0 then n else n + h.old_count) hs
        ≡ some (mixed_lines accepted (suc idx) ss, length done' + length rest) =
      ap (λ c. hunk_loop ls accepted (suc idx) c hs) cursor
      ∙ ap (λ l. hunk_loop l accepted (suc idx) (length done') hs)
          (regroup done s.before old rest tail)
      ∙ ih in
    let end : length done' + length rest ≡ length done + length (s.before ++ (old ++ rest)) =
      omega (arith, sym len, length-append s.before (old ++ rest), length-append old rest) in
    rw (StartsAt-hunk_start h n starts, hunk_loop)
      (rw found (
        rw rec (
          ap
            (λ ds. some (
              s.before
                  ++ ((if contains accepted idx then new_side ds else old_side ds)
                      ++ mixed_lines accepted (suc idx) ss),
              length done' + length rest,
            ))
            body
          ∙ ap (λ e. some (mixed_lines accepted idx (s ∷ ss), e)) end)))
