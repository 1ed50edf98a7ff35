-- ===== src/Review/Defs.antt =====
-- `apply_hunks`: the original text with the new side of the accepted hunks.
use cuartel.Common.{
  ℕ, suc, ◌+◌, ◌-◌, Bool, true, false, not, ◌&&◌, ◌||◌, Option, none, some, List, [], ◌∷◌, ◌++◌,
  map, any, ltb, leb, ◌==◌, length, take, drop, if◌then◌else◌,
}

-- A text is the list of its characters' numbers.
abbrev pub Text : Type 0
Text = List ℕ

pub data DiffLine : Type 0 where
  context : Text → DiffLine
  added : Text → DiffLine
  removed : Text → DiffLine

pub record DiffHunk : Type 0 where
  pub old_start : ℕ
  pub old_count : ℕ
  pub new_start : ℕ
  pub new_count : ℕ
  pub lines : List DiffLine

-- The text up to each newline, and whether there is one.
abbrev pub add_char : ℕ → List (Text × Bool) → List (Text × Bool)
add_char c [] = (c ∷ [], false) ∷ []
add_char c ((l, ended) ∷ ps) = (c ∷ l, ended) ∷ ps

unfoldable pub pieces : Text → List (Text × Bool)
pieces [] = []
pieces (c ∷ t) = let rest = pieces t in if c == 10 then ([], true) ∷ rest else add_char c rest

-- `strip_suffix('\r')`
unfoldable pub strip_cr : Text → Text
strip_cr [] = []
strip_cr (c ∷ []) = if c == 13 then [] else c ∷ []
strip_cr (c ∷ (d ∷ t)) = c ∷ strip_cr (d ∷ t)

-- `str::lines`: a carriage return goes with the newline behind it.
abbrev pub line_of : Text × Bool → Text
line_of (l, ended) = if ended then strip_cr l else l

unfoldable pub lines : Text → List Text
unfolding pieces
lines t = map line_of (pieces t)

-- `join("\n")`
unfoldable pub join : List Text → Text
join [] = []
join (l ∷ []) = l
join (l ∷ (m ∷ ls)) = l ++ 10 ∷ join (m ∷ ls)

unfoldable pub ends_with_newline : Text → Bool
ends_with_newline [] = false
ends_with_newline (c ∷ []) = c == 10
ends_with_newline (c ∷ (d ∷ t)) = ends_with_newline (d ∷ t)

abbrev pub is_empty {ℓ} : {A : Type ℓ} → List A → Bool
is_empty [] = true
is_empty (x ∷ xs) = false

unfoldable pub new_side : List DiffLine → List Text
new_side [] = []
new_side (context s ∷ ds) = s ∷ new_side ds
new_side (added s ∷ ds) = s ∷ new_side ds
new_side (removed s ∷ ds) = new_side ds

unfoldable pub old_side : List DiffLine → List Text
old_side [] = []
old_side (context s ∷ ds) = s ∷ old_side ds
old_side (added s ∷ ds) = old_side ds
old_side (removed s ∷ ds) = s ∷ old_side ds

-- `BTreeSet::contains`
abbrev pub contains : List ℕ → ℕ → Bool
contains set i = any (λ j. j == i) set

-- The first line of the hunk, from zero; `none` where the subtraction overflows.
unfoldable pub hunk_start : DiffHunk → Option ℕ
hunk_start h =
    if h.old_count == 0
    then some (h.new_start - 1)
    else if h.old_start == 0
    then none
    else some (h.old_start - 1)

-- `lines[from..to]` when `to` is above `from`; `none` where it is out of range.
unfoldable pub gap : List Text → ℕ → ℕ → Option (List Text)
gap ls from to =
    if ltb from to
    then (if leb to (length ls) then some (take (to - from) (drop from ls)) else none)
    else some []

-- The loop: what it puts out and where it leaves the cursor.
unfoldable pub hunk_loop : List Text → List ℕ → ℕ → ℕ → List DiffHunk → Option (List Text × ℕ)
unfolding hunk_start gap
hunk_loop ls accepted idx cursor [] = some ([], cursor)
hunk_loop ls accepted idx cursor (h ∷ hs) = elim (hunk_start h) [
  | none ↦ none
  | some start ↦ elim (gap ls cursor start) [
    | none ↦ none
    | some before ↦
        elim (hunk_loop ls accepted (suc idx)
          (if h.old_count == 0 then start else start + h.old_count) hs) [
            | none ↦ none
            | some (rest, end) ↦ some (
              before
                  ++ ((if contains accepted idx then new_side h.lines else old_side h.lines)
                      ++ rest),
              end,
            )
          ]
  ]
]

-- The end of `apply_hunks`: a newline behind the last line, where the original had one.
unfoldable pub finish : Text → Text → Text
finish original result =
    if not (is_empty result)
      && (not (ends_with_newline result) && (is_empty original || ends_with_newline original))
    then result ++ 10 ∷ []
    else result

-- `apply_hunks` on the lines of the original.
unfoldable pub apply_to_lines : Text → List Text → List DiffHunk → List ℕ → Option Text
unfolding hunk_loop finish
apply_to_lines original ls hunks accepted = elim (hunk_loop ls accepted 0 0 hunks) [
  | none ↦ none
  | some (out, cursor) ↦ some (finish original (join (out ++ drop cursor ls)))
]

unfoldable pub apply_hunks : Text → List DiffHunk → List ℕ → Option Text
unfolding apply_to_lines lines
apply_hunks original hunks accepted = apply_to_lines original (lines original) hunks accepted
