-- ===== src/Cron/Decimal.antt =====
-- The decimal digits of a number are read back.
use mathlib.Core.List.{append_assoc, append-nil}
use cuartel.Common.{
  ℕ, zero, suc, ◌+◌, ◌-◌, ◌*◌, ◌/◌, ◌%◌, ◌^◌, ◌≤◌, ◌<◌, ◌≡◌, refl, ap, sym, ◌∙◌, false, [], ◌∷◌,
  ◌++◌, some, All, All-append, arith, ltb, Bool-cases, inl, inr,
}
use cuartel.Cron.{Chars}
use cuartel.Cron.Chars.{scan, parse_u32, digits, to_string, no_chars}

abbrev pub IsDigit : ℕ → Type 0
IsDigit c = (48 ≤ c) × (c ≤ 57)

digits-IsDigit : (k n : ℕ) → All IsDigit (digits k n)
unfolding digits
digits-IsDigit zero n = tt
digits-IsDigit (suc k) n = elim (Bool-cases (ltb n 10)) [
  | inl small ↦ rw (small, All) (ground arith, tt)
  | inr large ↦
      rw (large, All)
        (All-append IsDigit (digits k (n / 10)) _ (digits-IsDigit k (n / 10)) (omega arith, tt))
]

pub to_string-IsDigit : (n : ℕ) → All IsDigit (to_string n)
unfolding to_string
to_string-IsDigit n = digits-IsDigit (suc n) n

-- One digit more.
scan_digit :
    (n c : ℕ) (s : Chars)
    → IsDigit c
    → n * 10 + (c - 48) < 2 ^ 32
    → scan n (c ∷ s) ≡ scan (n * 10 + (c - 48)) s
unfolding scan
scan_digit n c s d h = ground arith

scan-digits :
    (k n : ℕ) (rest : Chars) → n < k → n < 2 ^ 32 → scan 0 (digits k n ++ rest) ≡ scan n rest
unfolding digits
scan-digits zero n rest h b = elim h [ ]
scan-digits (suc k) n rest h b = elim (Bool-cases (ltb n 10)) [
  | inl small ↦
      let low : n < 10 = ground arith in
      rw small (
        scan_digit 0 (48 + n) rest (omega arith) (omega arith)
        ∙ ap (λ m. scan m rest) (let value : 0 * 10 + (48 + n - 48) ≡ n = omega arith in value))
  | inr large ↦
      let high : 10 ≤ n = ground arith in
      rw (large, append_assoc)
        (scan-digits k (n / 10) ((48 + n % 10) ∷ rest) (omega arith) (omega arith)
          ∙ scan_digit (n / 10) (48 + n % 10) rest (omega arith) (omega arith)
          ∙ ap (λ m. scan m rest)
              (let value : n / 10 * 10 + (48 + n % 10 - 48) ≡ n = omega arith in value))
]

pub to_string-some : (n : ℕ) → no_chars (to_string n) ≡ false
unfolding to_string digits
to_string-some n = elim (Bool-cases (ltb n 10)) [
  | inl small ↦ rw small refl
  | inr large ↦ rw large (ends (digits n (n / 10)) (48 + n % 10))
]
  where
    ends : (s : Chars) (c : ℕ) → no_chars (s ++ c ∷ []) ≡ false
    ends [] c = refl
    ends (d ∷ s) c = refl

-- A text that begins with a digit has no plus sign before it.
parse_u32-digits : (s : Chars) → All IsDigit s → no_chars s ≡ false → parse_u32 s ≡ scan 0 s
unfolding parse_u32
parse_u32-digits [] d h = absurd (cc)
parse_u32-digits (c ∷ []) d h = ground arith
parse_u32-digits (c ∷ e ∷ s) d h = ground arith

scanned : (n : ℕ) → scan n [] ≡ some n
unfolding scan
scanned n = refl

-- What `to_string` prints of a `u32`, `parse` reads.
pub parse_u32-to_string : (n : ℕ) → n < 2 ^ 32 → parse_u32 (to_string n) ≡ some n
unfolding to_string
parse_u32-to_string n h =
    parse_u32-digits (to_string n) (to_string-IsDigit n) (to_string-some n)
    ∙ ap (scan 0) (sym (append-nil (to_string n)))
    ∙ scan-digits (suc n) n [] (omega arith) h
    ∙ scanned n
