-- ===== src/Cron/Printed.antt =====
-- The characters that `Display` writes for the value of a field.
use cuartel.Common.{
  ℕ, ◌≤◌, ◌≡◌, ◌≢◌, refl, false, [], ◌∷◌, ◌++◌, All, All-append, All-mono, arith, ◌⊎◌, inl, inr,
}
use cuartel.Common.Text.{is_whitespace}
use cuartel.Cron.{Chars, CronFieldValue, any, exact, range, step, list, Values, nil, cons}
use cuartel.Cron.Chars.{contains, no_chars, to_string, join}
use cuartel.Cron.Parse.{value_str, value_strs}
use cuartel.Cron.Decimal.{IsDigit, to_string-IsDigit, to_string-some}
use cuartel.Cron.Valid.{IsPlain, IsItem, IsValid, AllItems}
use cuartel.Cron.Words.{IsSolid, Lacks}

-- Digits, `*`, `-`, `/` and `,`.
abbrev pub FieldChar : ℕ → Type 0
FieldChar c = (42 ≤ c) × (c ≤ 57)

abbrev pub ItemChar : ℕ → Type 0
ItemChar c = FieldChar c × (c ≢ 44)

abbrev pub PlainChar : ℕ → Type 0
PlainChar c = ItemChar c × (c ≢ 47)

digit_plain : (c : ℕ) → IsDigit c → PlainChar c
digit_plain c h = (((omega arith, omega arith), λ e. omega arith), λ e. omega arith)

number-PlainChar : (n : ℕ) → All PlainChar (to_string n)
number-PlainChar n = All-mono IsDigit PlainChar (to_string n) digit_plain (to_string-IsDigit n)

solid_char : (c : ℕ) → FieldChar c → is_whitespace c ≡ false
unfolding is_whitespace
solid_char c h = ground arith

some_append : (s t : Chars) → no_chars s ≡ false → no_chars (s ++ t) ≡ false
some_append [] t h = absurd (cc)
some_append (c ∷ s) t h = refl

pub digits_lack : (c n : ℕ) → c ≤ 47 → contains c (to_string n) ≡ false
digits_lack c n h =
    Lacks c (to_string n)
      (All-mono IsDigit (λ d. d ≢ c) (to_string n) (λ d digit e. omega arith) (to_string-IsDigit n))

module _ (min max : ℕ) where
  plain_chars : (v : CronFieldValue) → IsPlain min max v → All PlainChar (value_str v)
  unfolding value_str
  plain_chars any h = ((((omega arith, omega arith), λ e. omega arith), λ e. omega arith), tt)
  plain_chars (exact n) h = number-PlainChar n
  plain_chars (range lo hi) h =
      All-append PlainChar (to_string lo) _ (number-PlainChar lo)
        ((((omega arith, omega arith), λ e. omega arith), λ e. omega arith), number-PlainChar hi)
  plain_chars (step base k) h = elim h [ ]
  plain_chars (list items) h = elim h [ ]

  weaken : (s : Chars) → All PlainChar s → All ItemChar s
  weaken s = All-mono PlainChar ItemChar s (λ c h. h.0)

  item_chars : (v : CronFieldValue) → IsItem min max v → All ItemChar (value_str v)
  unfolding value_str
  item_chars any h = weaken (value_str any) (plain_chars any h)
  item_chars (exact n) h = weaken (value_str (exact n)) (plain_chars (exact n) h)
  item_chars (range lo hi) h = weaken (value_str (range lo hi)) (plain_chars (range lo hi) h)
  item_chars (step base k) h =
      All-append ItemChar (value_str base) _ (weaken (value_str base) (plain_chars base h.0))
        (((omega arith, omega arith), λ e. omega arith), weaken (to_string k) (number-PlainChar k))
  item_chars (list items) h = elim h [ ]

  -- What is printed of a plain value has no comma and no slash, and of an item no comma.
  pub plain_lacks :
      (c : ℕ) (v : CronFieldValue)
      → IsPlain min max v
      → (c ≡ 44) ⊎ (c ≡ 47)
      → contains c (value_str v) ≡ false
  plain_lacks c v h which = Lacks c (value_str v) (
      All-mono PlainChar (λ d. d ≢ c) (value_str v)
        (λ d plain e. elim which [
          | inl comma ↦ plain.0.1 (omega arith)
          | inr slash ↦ plain.1 (omega arith)
        ])
        (plain_chars v h))

  pub item_lacks : (v : CronFieldValue) → IsItem min max v → contains 44 (value_str v) ≡ false
  item_lacks v h =
      Lacks 44 (value_str v)
        (All-mono ItemChar (λ d. d ≢ 44) (value_str v) (λ d item. item.1) (item_chars v h))

  item_field : (v : CronFieldValue) → IsItem min max v → All FieldChar (value_str v)
  item_field v h = All-mono ItemChar FieldChar (value_str v) (λ c item. item.0) (item_chars v h)

  pub item-IsSolid : (v : CronFieldValue) → IsItem min max v → IsSolid (value_str v)
  item-IsSolid v h = All-mono FieldChar _ (value_str v) solid_char (item_field v h)

  items_field : (vs : Values) → AllItems min max vs → All FieldChar (join 44 (value_strs vs))
  unfolding value_strs join
  items_field nil h = tt
  items_field (cons v nil) h = item_field v h.0
  items_field (cons v (cons w vs)) h =
      All-append FieldChar (value_str v) _ (item_field v h.0)
        ((omega arith, omega arith), items_field (cons w vs) h.1)

  valid_field : (v : CronFieldValue) → IsValid min max v → All FieldChar (value_str v)
  unfolding value_str
  valid_field any h = item_field any h
  valid_field (exact n) h = item_field (exact n) h
  valid_field (range lo hi) h = item_field (range lo hi) h
  valid_field (step base k) h = item_field (step base k) h
  valid_field (list nil) h = elim h [ ]
  valid_field (list (cons v nil)) h = elim h [ ]
  valid_field (list (cons v (cons w vs))) h = items_field (cons v (cons w vs)) (h.0, (h.1, h.2))

  pub valid-IsSolid : (v : CronFieldValue) → IsValid min max v → IsSolid (value_str v)
  valid-IsSolid v h = All-mono FieldChar _ (value_str v) solid_char (valid_field v h)

  plain_some : (v : CronFieldValue) → IsPlain min max v → no_chars (value_str v) ≡ false
  unfolding value_str
  plain_some any h = refl
  plain_some (exact n) h = to_string-some n
  plain_some (range lo hi) h = some_append (to_string lo) _ (to_string-some lo)
  plain_some (step base k) h = elim h [ ]
  plain_some (list items) h = elim h [ ]

  item_some : (v : CronFieldValue) → IsItem min max v → no_chars (value_str v) ≡ false
  unfolding value_str
  item_some any h = plain_some any h
  item_some (exact n) h = plain_some (exact n) h
  item_some (range lo hi) h = plain_some (range lo hi) h
  item_some (step base k) h = some_append (value_str base) _ (plain_some base h.0)
  item_some (list items) h = elim h [ ]

  pub valid_some : (v : CronFieldValue) → IsValid min max v → no_chars (value_str v) ≡ false
  unfolding value_str value_strs join
  valid_some any h = item_some any h
  valid_some (exact n) h = item_some (exact n) h
  valid_some (range lo hi) h = item_some (range lo hi) h
  valid_some (step base k) h = item_some (step base k) h
  valid_some (list nil) h = elim h [ ]
  valid_some (list (cons v nil)) h = elim h [ ]
  valid_some (list (cons v (cons w vs))) h = some_append (value_str v) _ (item_some v h.0)
