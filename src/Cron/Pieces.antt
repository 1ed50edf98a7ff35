-- ===== src/Cron/Pieces.antt =====
-- What the pieces of a text lack: `split` and `split_once` leave the separator out, and with `trim`
-- bring nothing new in.
use cuartel.Common.{
  ℕ, ◌≤◌, ◌≡◌, refl, true, false, List, [], ◌∷◌, Option, none, some, All, arith, length, ◌==◌,
  Bool-cases, inl, inr,
}
use cuartel.Cron.{Chars}
use cuartel.Cron.Chars.{contains, onto, split, before, split_once, trim_start, trim_end, trim}

pub contains-trim_start :
    (c : ℕ) (s : Chars) → contains c s ≡ false → contains c (trim_start s) ≡ false
unfolding contains trim_start
contains-trim_start c [] h = refl
contains-trim_start c (d ∷ s) h = ground (arith, contains-trim_start c s)

pub contains-trim_end : (c : ℕ) (s : Chars) → contains c s ≡ false → contains c (trim_end s) ≡ false
unfolding contains trim_end
contains-trim_end c [] h = refl
contains-trim_end c (d ∷ s) h = ground (arith, contains-trim_end c s)

pub contains-trim : (c : ℕ) (s : Chars) → contains c s ≡ false → contains c (trim s) ≡ false
unfolding trim
contains-trim c s h = contains-trim_end c (trim_start s) (contains-trim_start c s h)

All-onto :
    (c d : ℕ) (ps : List Chars)
    → (d == c) ≡ false
    → All (λ p. contains c p ≡ false) ps
    → All (λ p. contains c p ≡ false) (onto d ps)
unfolding contains
All-onto c d [] h a = (ground arith, tt)
All-onto c d (p ∷ ps) h a = (ground arith, a.1)

pub contains-split : (c : ℕ) (s : Chars) → All (λ p. contains c p ≡ false) (split c s)
unfolding split contains
contains-split c [] = (refl, tt)
contains-split c (d ∷ s) = elim (Bool-cases (d == c)) [
  | inl same ↦ rw (same, All) (refl, contains-split c s)
  | inr other ↦ rw (other, All) (All-onto c d (split c s) other (contains-split c s))
]

length-onto : (d : ℕ) (ps : List Chars) → length ps ≤ length (onto d ps)
length-onto d [] = omega arith
length-onto d (p ∷ ps) = omega arith

split-some : (c : ℕ) (s : Chars) → 1 ≤ length (split c s)
unfolding split
split-some c [] = omega arith
split-some c (d ∷ s) = ground (arith, length-onto d (split c s), split-some c s)

pub split_many : (c : ℕ) (s : Chars) → contains c s ≡ true → 2 ≤ length (split c s)
unfolding split contains
split_many c [] h = absurd (cc)
split_many c (d ∷ s) h = ground (arith, length-onto d (split c s), split-some c s, split_many c s)

-- The first part lacks a character.
abbrev pub FirstLacks : ℕ → Option (Chars × Chars) → Type 0
FirstLacks c none = Unit
FirstLacks c (some (p, q)) = contains c p ≡ false

FirstLacks-before :
    (c d : ℕ) (o : Option (Chars × Chars))
    → (d == c) ≡ false
    → FirstLacks c o
    → FirstLacks c (before d o)
unfolding contains
FirstLacks-before c d none h f = tt
FirstLacks-before c d (some (p, q)) h f = ground arith

-- The part before the separator lacks it.
pub split_once-FirstLacks : (c : ℕ) (s : Chars) → FirstLacks c (split_once c s)
unfolding split_once contains
split_once-FirstLacks c [] = tt
split_once-FirstLacks c (d ∷ s) = elim (Bool-cases (d == c)) [
  | inl same ↦ rw (same, FirstLacks) refl
  | inr other ↦
      rw (other, FirstLacks)
        (FirstLacks-before c d (split_once c s) other (split_once-FirstLacks c s))
]

-- It also lacks what the text lacks.
pub split_once-FirstLacks_too :
    (b c : ℕ) (s : Chars) → contains b s ≡ false → FirstLacks b (split_once c s)
unfolding split_once contains
split_once-FirstLacks_too b c [] h = tt
split_once-FirstLacks_too b c (d ∷ s) h = elim (Bool-cases (d == c)) [
  | inl same ↦ rw (same, FirstLacks) refl
  | inr other ↦
      rw (other, FirstLacks)
        (FirstLacks-before b d (split_once c s) (ground arith)
          (split_once-FirstLacks_too b c s (ground arith)))
]
