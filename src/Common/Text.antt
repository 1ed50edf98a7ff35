-- ===== src/Common/Text.antt =====
-- Rust's `str` methods that the program uses: `eq_ignore_ascii_case`, `replace`, `rfind` of a character.
use Prim.Native.Nat.{ℕ, zero, suc, ◌+◌, ◌-◌}
use Prim.Native.Char.{Char, code}
use Prim.Native.String.{String, [], ◌∷◌, ◌++◌, count}
use mathlib.Core.Bool.{Bool, true, false, ◌&&◌, ◌||◌}
use mathlib.Core.Option.{Option, none, some}
use mathlib.Core.Path.{◌≡◌, refl, sym, ap, ◌∙◌}
use native.Mathlib.Omega.{arith}
use mathlib.Core.Logic.{inl, inr}
use text.Mathlib.Text.{starts_with}
use text.Mathlib.TextEquality.{starts_with_iff}
use text.Mathlib.TextPositions.{starts_with-append}
use text.Mathlib.TextLemmas.{cons-append, nil-append, head-eq_of_cons-eq}
use cuartel.Common.Tests.{leb, ◌==◌, if◌then◌else◌, Bool-cases, ==_iff}

-- `to_ascii_lowercase` of a character's number.
abbrev pub lower : ℕ → ℕ
lower n = if leb 65 n && leb n 90 then n + 32 else n

unfoldable pub eq_ignore_ascii_case : String → String → Bool
eq_ignore_ascii_case [] [] = true
eq_ignore_ascii_case [] (d ∷ t) = false
eq_ignore_ascii_case (c ∷ s) [] = false
eq_ignore_ascii_case (c ∷ s) (d ∷ t) = lower (code c) == lower (code d) && eq_ignore_ascii_case s t

-- `replace` of a text that is not empty; the number counts the characters still to be passed over.
unfoldable pub replace_from : String → String → ℕ → String → String
replace_from from to skip [] = []
replace_from from to (suc skip) (c ∷ s) = replace_from from to skip s
replace_from from to zero (c ∷ s) =
    if starts_with (c ∷ s) from
    then to ++ replace_from from to (count from - 1) s
    else c ∷ replace_from from to zero s

abbrev pub replace : String → String → String → String
replace s from to = replace_from from to 0 s

-- The text before the last character with the given number, if there is one.
unfoldable pub before_last : ℕ → String → Option String
before_last n [] = none
before_last n (c ∷ s) = elim (before_last n s) [
  | some p ↦ some (c ∷ p)
  | none ↦ if code c == n then some [] else none
]

-- `strip_suffix` of one character.
unfoldable pub strip_last : ℕ → String → Option String
strip_last n [] = none
strip_last n (c ∷ []) = if code c == n then some [] else none
strip_last n (c ∷ (d ∷ s)) = elim (strip_last n (d ∷ s)) [ some p ↦ some (c ∷ p) | none ↦ none ]

-- `strip_prefix` of one character.
abbrev pub strip_first : ℕ → String → Option String
strip_first n [] = none
strip_first n (c ∷ s) = if code c == n then some s else none

abbrev pub is_empty : String → Bool
is_empty [] = true
is_empty (c ∷ s) = false

-- `char::is_whitespace`: the characters with the Unicode property White_Space.
unfoldable pub is_whitespace : ℕ → Bool
is_whitespace n =
    leb 9 n && leb n 13
    || n == 32
    || n == 0x85
    || n == 0xA0
    || n == 0x1680
    || leb 0x2000 n && leb n 0x200A
    || n == 0x2028
    || n == 0x2029
    || n == 0x202F
    || n == 0x205F
    || n == 0x3000

unfoldable pub trim_start : String → String
unfolding is_whitespace
trim_start [] = []
trim_start (c ∷ s) = if is_whitespace (code c) then trim_start s else c ∷ s

unfoldable pub trim_end : String → String
unfolding is_whitespace
trim_end [] = []
trim_end (c ∷ s) =
    let rest = trim_end s in if is_empty rest && is_whitespace (code c) then [] else c ∷ rest

unfoldable pub trim : String → String
unfolding trim_start trim_end
trim s = trim_end (trim_start s)

abbrev pub starts_with_char : ℕ → String → Bool
starts_with_char n [] = false
starts_with_char n (c ∷ s) = code c == n

and_refl : {p q : Bool} → p ≡ true → q ≡ true → (p && q) ≡ true
and_refl {p} h k = simp (h, k) refl

pub eq_ignore_ascii_case_refl : (s : String) → eq_ignore_ascii_case s s ≡ true
unfolding eq_ignore_ascii_case
eq_ignore_ascii_case_refl [] = refl
eq_ignore_ascii_case_refl (c ∷ s) =
    and_refl ((==_iff (lower (code c)) (lower (code c))).1 refl) (eq_ignore_ascii_case_refl s)

and_true : (p q : Bool) → (p && q) ≡ true → (p ≡ true) × (q ≡ true)
and_true p q h = ground arith

-- Two texts that differ in case only are alike to every third.
pub eq_ignore_ascii_case_right :
    (r s t : String)
    → eq_ignore_ascii_case s t ≡ true
    → eq_ignore_ascii_case r s ≡ eq_ignore_ascii_case r t
unfolding eq_ignore_ascii_case
eq_ignore_ascii_case_right r [] [] h = refl
eq_ignore_ascii_case_right r [] (d ∷ t) h = absurd (ground arith)
eq_ignore_ascii_case_right r (c ∷ s) [] h = absurd (ground arith)
eq_ignore_ascii_case_right [] (c ∷ s) (d ∷ t) h = refl
eq_ignore_ascii_case_right (b ∷ r) (c ∷ s) (d ∷ t) h =
    let (heads, tails) = and_true _ _ h in
    let same : lower (code c) ≡ lower (code d) =
      (==_iff (lower (code c)) (lower (code d))).0 heads in
    ap (λ n. lower (code b) == n && eq_ignore_ascii_case r s) same
    ∙ ap (λ e. lower (code b) == lower (code d) && e) (eq_ignore_ascii_case_right r s t tails)

-- The character with the given number does not occur.
abbrev pub Lacks : ℕ → String → Type 0
Lacks n [] = Unit
Lacks n (c ∷ s) = ((code c == n) ≡ false) × Lacks n s

no_match : (c : Char) (s : String) → (code c == 123) ≡ false → starts_with (c ∷ s) "{key}" ≡ false
no_match c s h = elim (Bool-cases (starts_with (c ∷ s) "{key}")) [
  | inr e ↦ e
  | inl e ↦
      let (rest, p) = (starts_with_iff (c ∷ s) "{key}").0 e in
      let head : "{" ≡ c = head-eq_of_cons-eq (sym (cons-append "{" "key}" rest) ∙ p) in
      absurd (ground (arith, ap code head))
]

replace-Lacks : (to s : String) → Lacks 123 s → replace s "{key}" to ≡ s
unfolding replace_from
replace-Lacks to [] h = refl
replace-Lacks to (c ∷ s) h =
    rw (no_match c s h.0, replace_from) (ap (λ t. c ∷ t) (replace-Lacks to s h.1))

spelled : (b : String) → "{key}" ++ b ≡ "{" ∷ ("k" ∷ ("e" ∷ ("y" ∷ ("}" ∷ b))))
spelled b =
    rw
      (
        cons-append "{" "key}" b,
        cons-append "k" "ey}" b,
        cons-append "e" "y}" b,
        cons-append "y" "}" b,
        cons-append "}" "" b,
        nil-append b,
      )
      refl

replace-front : (to b : String) → replace ("{key}" ++ b) "{key}" to ≡ to ++ replace b "{key}" to
unfolding replace_from
replace-front to b =
    let found : starts_with ("{" ∷ ("k" ∷ ("e" ∷ ("y" ∷ ("}" ∷ b))))) "{key}" ≡ true =
      ap (λ t. starts_with t "{key}") (sym (spelled b)) ∙ starts_with-append "{key}" b in
    rw (spelled b) (rw (found, replace_from) refl)

-- One occurrence of `{key}`, with no other opening brace around it, is replaced, and nothing else.
pub replace-once :
    (to a b : String)
    → Lacks 123 a
    → Lacks 123 b
    → replace (a ++ ("{key}" ++ b)) "{key}" to ≡ a ++ (to ++ b)
unfolding replace_from
replace-once to [] b h k =
    rw (nil-append ("{key}" ++ b), nil-append (to ++ b))
      (replace-front to b ∙ ap (λ t. to ++ t) (replace-Lacks to b k))
replace-once to (c ∷ a) b h k =
    rw (cons-append c a ("{key}" ++ b), cons-append c a (to ++ b))
      (rw (no_match c (a ++ ("{key}" ++ b)) h.0, replace_from)
        (ap (λ t. c ∷ t) (replace-once to a b h.1 k)))
