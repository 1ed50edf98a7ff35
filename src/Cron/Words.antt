-- ===== src/Cron/Words.antt =====
-- Texts that are put together are taken apart again: `split`, `split_once` and `split_whitespace`
-- after `join`, and `trim`.
use mathlib.Core.List.{append_assoc, append-nil}
use cuartel.Common.{
  ℕ, ◌≡◌, ◌≢◌, refl, ap, sym, ◌∙◌, true, false, ◌||◌, List, [], ◌∷◌, ◌++◌, none, some, All, arith,
}
use cuartel.Common.Text.{is_whitespace}
use cuartel.Cron.{Chars}
use cuartel.Cron.Chars.{
  contains, split, split_once, no_chars, trim_start, trim_end, trim, piece, words_from,
  split_whitespace, join,
}

-- Characters that are all different from one leave it out.
pub Lacks : (c : ℕ) (s : Chars) → All (λ d. d ≢ c) s → contains c s ≡ false
unfolding contains
Lacks c [] h = refl
Lacks c (d ∷ s) h = ground (arith, Lacks c s h.1)

pub contains-append : (c : ℕ) (s t : Chars) → contains c (s ++ t) ≡ (contains c s || contains c t)
unfolding contains
contains-append c [] t = refl
contains-append c (d ∷ s) t = ground (arith, contains-append c s t)

pub split_once-found :
    (c : ℕ) (p q : Chars) → contains c p ≡ false → split_once c (p ++ (c ∷ q)) ≡ some (p, q)
unfolding contains split_once
split_once-found c [] q h = ground arith
split_once-found c (d ∷ p) q h = ground (arith, split_once-found c p q)

pub split_once-none : (c : ℕ) (s : Chars) → contains c s ≡ false → split_once c s ≡ none
unfolding contains split_once
split_once-none c [] h = refl
split_once-none c (d ∷ s) h = ground (arith, split_once-none c s)

split-one : (c : ℕ) (p : Chars) → contains c p ≡ false → split c p ≡ p ∷ []
unfolding contains split
split-one c [] h = refl
split-one c (d ∷ p) h = ground (arith, split-one c p)

split-first : (c : ℕ) (p s : Chars) → contains c p ≡ false → split c (p ++ (c ∷ s)) ≡ p ∷ split c s
unfolding contains split
split-first c [] s h = ground arith
split-first c (d ∷ p) s h = ground (arith, split-first c p s)

-- `split` takes apart what `join` puts together.
pub split-join :
    (c : ℕ) (p : Chars) (ps : List Chars)
    → All (λ q. contains c q ≡ false) (p ∷ ps)
    → split c (join c (p ∷ ps)) ≡ p ∷ ps
unfolding join
split-join c p [] h = split-one c p h.0
split-join c p (q ∷ ps) h =
    split-first c p (join c (q ∷ ps)) h.0 ∙ ap (λ rest. p ∷ rest) (split-join c q ps h.1)

pub contains-join :
    (c : ℕ) (p q : Chars) (ps : List Chars) → contains c (join c (p ∷ q ∷ ps)) ≡ true
unfolding join contains
contains-join c [] q ps = ground arith
contains-join c (d ∷ p) q ps = ground (arith, contains-join c p q ps)

-- A text without white space.
abbrev pub IsSolid : Chars → Type 0
IsSolid = All (λ c. is_whitespace c ≡ false)

trim_start-solid : (s : Chars) → IsSolid s → trim_start s ≡ s
unfolding trim_start
trim_start-solid [] h = refl
trim_start-solid (c ∷ s) h = rw h.0 refl

trim_end-solid : (s : Chars) → IsSolid s → trim_end s ≡ s
unfolding trim_end
trim_end-solid [] h = refl
trim_end-solid (c ∷ s) h = ground (arith, trim_end-solid s h.1, h.0)

pub trim-solid : (s : Chars) → IsSolid s → trim s ≡ s
unfolding trim
trim-solid s h = ap trim_end (trim_start-solid s h) ∙ trim_end-solid s h

words_from-solid :
    (sofar p s : Chars) → IsSolid p → words_from sofar (p ++ s) ≡ words_from (sofar ++ p) s
unfolding words_from
words_from-solid sofar [] s h = ap (λ t. words_from t s) (sym (append-nil sofar))
words_from-solid sofar (c ∷ p) s h = rw h.0 (
    words_from-solid (sofar ++ c ∷ []) p s h.1
    ∙ ap (λ t. words_from t s) (append_assoc sofar (c ∷ []) p))

piece-some : (p : Chars) (ps : List Chars) → no_chars p ≡ false → piece p ps ≡ p ∷ ps
piece-some [] ps h = absurd (cc)
piece-some (c ∷ p) ps h = refl

-- `split_whitespace` takes apart what is joined by spaces.
pub split_whitespace-join :
    (p : Chars) (ps : List Chars)
    → All (λ q. IsSolid q × (no_chars q ≡ false)) (p ∷ ps)
    → split_whitespace (join 32 (p ∷ ps)) ≡ p ∷ ps
unfolding split_whitespace join is_whitespace
split_whitespace-join p [] h =
    ap (words_from []) (sym (append-nil p)) ∙ words_from-solid [] p [] h.0.0 ∙ piece-some p [] h.0.1
split_whitespace-join p (q ∷ ps) h =
    words_from-solid [] p (32 ∷ join 32 (q ∷ ps)) h.0.0
    ∙ piece-some p (words_from [] (join 32 (q ∷ ps))) h.0.1
    ∙ ap (λ rest. p ∷ rest) (split_whitespace-join q ps h.1)
