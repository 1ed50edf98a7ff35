-- ===== src/Cron/Chars.antt =====
-- The methods of Rust's `str` that crates/cuartel-core/src/cron.rs uses, on lists of code points.
use cuartel.Common.{
  ℕ, zero, suc, ◌+◌, ◌-◌, ◌*◌, ◌/◌, ◌%◌, ◌^◌, Bool, true, false, ◌&&◌, ◌||◌, List, [], ◌∷◌, ◌++◌,
  Option, none, some, ltb, leb, ◌==◌, if◌then◌else◌,
}
use cuartel.Common.Text.{is_whitespace}
use cuartel.Cron.{Chars}

-- `contains` of a character
unfoldable pub contains : ℕ → Chars → Bool
contains c [] = false
contains c (d ∷ s) = d == c || contains c s

-- Puts a character before the first piece.
abbrev pub onto : ℕ → List Chars → List Chars
onto d [] = (d ∷ []) ∷ []
onto d (p ∷ ps) = (d ∷ p) ∷ ps

-- `split` at every occurrence of a character
unfoldable pub split : ℕ → Chars → List Chars
split c [] = [] ∷ []
split c (d ∷ s) = let rest = split c s in if d == c then [] ∷ rest else onto d rest

abbrev pub before : ℕ → Option (Chars × Chars) → Option (Chars × Chars)
before d none = none
before d (some (p, q)) = some (d ∷ p, q)

-- `split_once` at the first occurrence
unfoldable pub split_once : ℕ → Chars → Option (Chars × Chars)
split_once c [] = none
split_once c (d ∷ s) = let rest = split_once c s in if d == c then some ([], s) else before d rest

abbrev pub no_chars : Chars → Bool
no_chars [] = true
no_chars (c ∷ s) = false

unfoldable pub trim_start : Chars → Chars
trim_start [] = []
trim_start (c ∷ s) = if is_whitespace c then trim_start s else c ∷ s

unfoldable pub trim_end : Chars → Chars
trim_end [] = []
trim_end (c ∷ s) =
    let rest = trim_end s in if no_chars rest && is_whitespace c then [] else c ∷ rest

unfoldable pub trim : Chars → Chars
unfolding trim_start trim_end
trim s = trim_end (trim_start s)

-- A piece that is not empty, before the others.
abbrev pub piece : Chars → List Chars → List Chars
piece [] ps = ps
piece (c ∷ s) ps = (c ∷ s) ∷ ps

-- `split_whitespace`: the first argument is the piece so far.
unfoldable pub words_from : Chars → Chars → List Chars
words_from sofar [] = piece sofar []
words_from sofar (c ∷ s) =
    let next = words_from [] s in
    let longer = words_from (sofar ++ c ∷ []) s in
    if is_whitespace c then piece sofar next else longer

unfoldable pub split_whitespace : Chars → List Chars
unfolding words_from
split_whitespace s = words_from [] s

abbrev pub is_digit : ℕ → Bool
is_digit c = leb 48 c && leb c 57

-- The digits of `u32::from_str`: `none` at another character or at an overflow.
unfoldable pub scan : ℕ → Chars → Option ℕ
scan n [] = some n
scan n (c ∷ s) =
    let rest = scan (n * 10 + (c - 48)) s in
    if is_digit c then if ltb (n * 10 + (c - 48)) (2 ^ 32) then rest else none else none

-- `u32::from_str`: digits, with a plus sign before them if need be.
unfoldable pub parse_u32 : Chars → Option ℕ
unfolding scan
parse_u32 [] = none
parse_u32 (c ∷ []) = if c == 43 then none else scan 0 (c ∷ [])
parse_u32 (c ∷ d ∷ s) = if c == 43 then scan 0 (d ∷ s) else scan 0 (c ∷ d ∷ s)

-- `to_string` of a number, with a count of digits that is enough.
unfoldable pub digits : ℕ → ℕ → Chars
digits zero n = []
digits (suc k) n =
    let front = digits k (n / 10) in if ltb n 10 then (48 + n) ∷ [] else front ++ (48 + n % 10) ∷ []

unfoldable pub to_string : ℕ → Chars
unfolding digits
to_string n = digits (suc n) n

-- `join` with a character between the pieces
unfoldable pub join : ℕ → List Chars → Chars
join c [] = []
join c (p ∷ []) = p
join c (p ∷ q ∷ ps) = p ++ (c ∷ join c (q ∷ ps))
