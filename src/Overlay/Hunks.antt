-- ===== src/Overlay/Hunks.antt =====
-- The hunks of `text_hunks` fit both texts.
use cuartel.Common.{
  ℕ, suc, ◌+◌, ◌-◌, ◌≡◌, refl, sym, ap, ◌∙◌, subst, inl, inr, true, false, none, some, ◌&&◌, List,
  [], ◌∷◌, ◌++◌, map, leb, ◌==◌, length, All, arith, Bool-cases, if◌then◌else◌,
}
use cuartel.Review.Defs.{Text, DiffHunk, old_side, new_side}
use cuartel.Review.Mix.{Segment, original_lines, Fits, StartsAt, append_assoc}
use cuartel.Overlay.{strip_trailing_newline, diff_line, start_of, hunk_of, group_hunks}
use cuartel.Overlay.Similar.{
  Change, DiffOp, last_op, old_values, new_values, changes_of, Consecutive, Covers, Plain, ended,
}

-- The lines with the new side of every hunk.
abbrev pub new_lines : List Segment → List Text
new_lines [] = []
new_lines (s ∷ ss) = s.before ++ (new_side s.body ++ new_lines ss)

abbrev pub strip_all : List Text → List Text
strip_all = map strip_trailing_newline

strip-ended : (l : Text) → Plain l → strip_trailing_newline (ended l) ≡ l
unfolding strip_trailing_newline
strip-ended [] h = refl
strip-ended (c ∷ []) (h, hs) = ground arith
strip-ended (c ∷ (d ∷ [])) (h, hs) = ap (λ r. c ∷ r) (strip-ended (d ∷ []) hs)
strip-ended (c ∷ (d ∷ (e ∷ l))) (h, hs) = ap (λ r. c ∷ r) (strip-ended (d ∷ (e ∷ l)) hs)

pub strip_all-ended : (ls : List Text) → All Plain ls → strip_all (map ended ls) ≡ ls
strip_all-ended [] h = refl
strip_all-ended (l ∷ ls) (h, hs) =
    ap (λ m. m ∷ strip_all (map ended ls)) (strip-ended l h)
    ∙ ap (λ r. l ∷ r) (strip_all-ended ls hs)

map-append : {A B : Type 0} (f : A → B) (xs ys : List A) → map f (xs ++ ys) ≡ map f xs ++ map f ys
map-append f [] ys = refl
map-append f (x ∷ xs) ys = ap (λ r. f x ∷ r) (map-append f xs ys)

old_side-changes : (cs : List Change) → old_side (map diff_line cs) ≡ strip_all (old_values cs)
unfolding old_side diff_line
old_side-changes [] = refl
old_side-changes (c ∷ cs) = ground (arith, old_side-changes cs)

new_side-changes : (cs : List Change) → new_side (map diff_line cs) ≡ strip_all (new_values cs)
unfolding new_side diff_line
new_side-changes [] = refl
new_side-changes (c ∷ cs) = ground (arith, new_side-changes cs)

length-map : {A B : Type 0} (f : A → B) (xs : List A) → length (map f xs) ≡ length xs
length-map f [] = refl
length-map f (x ∷ xs) = ap suc (length-map f xs)

length-old_values :
    (cs ds : List Change)
    → length (old_values (cs ++ ds)) ≡ length (old_values cs) + length (old_values ds)
length-old_values [] ds = omega arith
length-old_values (c ∷ cs) ds = ground (arith, length-old_values cs ds)

length-new_values :
    (cs ds : List Change)
    → length (new_values (cs ++ ds)) ≡ length (new_values cs) + length (new_values ds)
length-new_values [] ds = omega arith
length-new_values (c ∷ cs) ds = ground (arith, length-new_values cs ds)

-- The ranges of a group count the lines of its changes.
Consecutive-last_op :
    (i j : ℕ) (op : DiffOp) (ops : List DiffOp)
    → Consecutive i j (op ∷ ops)
    → ((last_op op ops).old_hi ≡ i + length (old_values (changes_of (op ∷ ops))))
      × ((last_op op ops).new_hi ≡ j + length (new_values (changes_of (op ∷ ops))))
Consecutive-last_op i j op [] (a, b, c, d, rest) = (
  omega (arith, b, length-old_values op.changes []),
  omega (arith, d, length-new_values op.changes []),
)
Consecutive-last_op i j op (next ∷ ops) (a, b, c, d, rest) =
    let (o, n) = Consecutive-last_op op.old_hi op.new_hi next ops rest in
    (
      omega (arith, o, b, length-old_values op.changes (changes_of (next ∷ ops))),
      omega (arith, n, d, length-new_values op.changes (changes_of (next ∷ ops))),
    )

length-old_side : (cs : List Change) → length (old_side (map diff_line cs)) ≡ length (old_values cs)
length-old_side cs =
    ap length (old_side-changes cs) ∙ length-map strip_trailing_newline (old_values cs)

-- A hunk with the given lines that starts behind so many lines of the old text.
abbrev Places : ℕ → List Change → DiffHunk → Type 0
Places i cs h =
    (h.lines ≡ map diff_line cs)
    × (h.old_count ≡ length (old_side (map diff_line cs)))
    × StartsAt h i

hunk_of-Places :
    (i j : ℕ) (op : DiffOp) (ops : List DiffOp)
    → Consecutive i j (op ∷ ops)
    → (length (old_values (changes_of (op ∷ ops))) ≡ 0 → (i ≡ 0) × (j ≡ 0))
    → (h : DiffHunk) × (hunk_of op ops ≡ some h) × Places i (changes_of (op ∷ ops)) h
unfolding hunk_of
hunk_of-Places i j op ops con at_start =
    let cs = changes_of (op ∷ ops) in
    let (o, n) = Consecutive-last_op i j op ops con in
    let olo = con.0 in
    let nlo = con.2 in
    let old_count = (last_op op ops).old_hi - op.old_lo in
    let new_count = (last_op op ops).new_hi - op.new_lo in
    let forward : (leb op.old_lo (last_op op ops).old_hi && leb op.new_lo (last_op op ops).new_hi)
        ≡ true =
      ground arith in
    let h : DiffHunk = record {
      old_start = start_of old_count op.old_lo;
      old_count = old_count;
      new_start = start_of new_count op.new_lo;
      new_count = new_count;
      lines = map diff_line cs;
    } in
    let counted : old_count ≡ length (old_values cs) = omega (arith, o, olo) in
    let starts : StartsAt h i = elim (Bool-cases (length (old_values cs) == 0)) [
      | inl z ↦
          let (i0, j0) = at_start (ground arith) in
          inr (
            ground arith,
            elim (Bool-cases (new_count == 0)) [
              | inl e ↦ rw e (omega (arith, i0))
              | inr e ↦ rw e (omega (arith, nlo, i0, j0))
            ],
          )
      | inr z ↦
          let nonzero : (old_count == 0) ≡ false = ground arith in
          inl (ground arith, rw nonzero (omega (arith, olo)))
    ] in
    (
      h,
      ap (λ b. if b then some h else none) forward,
      (refl, counted ∙ sym (length-old_side cs), starts),
    )

-- What the hunks of the groups make of the lines of both texts.
pub record Exchange (i : ℕ) (os ns : List Text) (gs : List (List DiffOp)) : Type 0 where
  pub hunks : List DiffHunk
  pub segments : List Segment
  pub tail : List Text
  pub made : group_hunks gs ≡ some hunks
  pub fits : Fits i segments hunks
  pub original : original_lines segments ++ tail ≡ strip_all os
  pub exchanged : new_lines segments ++ tail ≡ strip_all ns

pieced :
    (same mid rest tail os' : List Text)
    → rest ++ tail ≡ strip_all os'
    → (strip_all same ++ (strip_all mid ++ rest)) ++ tail ≡ strip_all (same ++ (mid ++ os'))
pieced same mid rest tail os' e =
    append_assoc (strip_all same) (strip_all mid ++ rest) tail
    ∙ ap (λ r. strip_all same ++ r)
        (append_assoc (strip_all mid) rest tail
          ∙ ap (λ r. strip_all mid ++ r) e
          ∙ sym (map-append strip_trailing_newline mid os'))
    ∙ sym (map-append strip_trailing_newline same (mid ++ os'))

pub Covers-Exchange :
    (i j : ℕ) (os ns : List Text) (gs : List (List DiffOp))
    → Covers i j os ns gs
    → Exchange i os ns gs
unfolding group_hunks
Covers-Exchange i j os ns [] c = record {
  hunks = [];
  segments = [];
  tail = strip_all os;
  made = refl;
  fits = tt;
  original = refl;
  exchanged = ap strip_all c;
}
Covers-Exchange i j os ns ([] ∷ gs) c = absurd c
Covers-Exchange i j os ns ((op ∷ ops) ∷ gs) (same, os', ns', eo, en, con, at_start, c) =
    let cs = changes_of (op ∷ ops) in
    let (h, made, (lines, count, starts)) =
      hunk_of-Places (i + length same) (j + length same) op ops con at_start in
    let x =
      Covers-Exchange (i + length same + length (old_values cs))
        (j + length same + length (new_values cs)) os' ns' gs c in
    let before : length same ≡ length (strip_all same) =
      sym (length-map strip_trailing_newline same) in
    let body = map diff_line cs in
    record {
      hunks = h ∷ x.hunks;
      segments = record { before = strip_all same; body = body } ∷ x.segments;
      tail = x.tail;
      made = rw (made, x.made, group_hunks) refl;
      fits = (
        lines,
        count,
        subst (λ k. StartsAt h (i + k)) before starts,
        subst (λ k. Fits k x.segments x.hunks)
            (ap (λ k. i + k + length (old_values cs)) before
              ∙ ap (λ k. i + length (strip_all same) + k) (sym (length-old_side cs)))
            x.fits,
      );
      original =
          ap (λ o. (strip_all same ++ (o ++ original_lines x.segments)) ++ x.tail)
            (old_side-changes cs)
          ∙ pieced same (old_values cs) (original_lines x.segments) x.tail os' x.original
          ∙ ap strip_all (sym eo);
      exchanged =
          ap (λ o. (strip_all same ++ (o ++ new_lines x.segments)) ++ x.tail) (new_side-changes cs)
          ∙ pieced same (new_values cs) (new_lines x.segments) x.tail ns' x.exchanged
          ∙ ap strip_all (sym en);
    }
