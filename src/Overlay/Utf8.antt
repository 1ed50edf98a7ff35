-- ===== src/Overlay/Utf8.antt =====
-- Rust's `str::from_utf8`, which crates/cuartel-core/src/overlay.rs asks whether a file is a text.
use cuartel.Common.{
  ℕ, zero, suc, ◌+◌, ◌-◌, ◌*◌, Bool, ◌&&◌, Option, none, some, List, [], ◌∷◌, leb, ltb, ◌==◌,
  if◌then◌else◌,
}

abbrev between : ℕ → ℕ → ℕ → Bool
between lo hi b = leb lo b && leb b hi

-- What a first byte announces: the number of bytes behind it, its own bits, and the bounds of the
-- second byte, which leave out overlong forms, surrogates and numbers above 0x10FFFF.
pub record Lead : Type 0 where
  pub following : ℕ
  pub bits : ℕ
  pub low : ℕ
  pub high : ℕ

abbrev pub lead : ℕ → ℕ → ℕ → ℕ → Option Lead
lead following bits low high =
    some (record { following = following; bits = bits; low = low; high = high })

unfoldable pub lead_of : ℕ → Option Lead
lead_of b =
    if ltb b 0x80
    then lead 0 b 0 0
    else if between 0xC2 0xDF b
    then lead 1 (b - 0xC0) 0x80 0xBF
    else if b == 0xE0
    then lead 2 0 0xA0 0xBF
    else if b == 0xED
    then lead 2 0xD 0x80 0x9F
    else if between 0xE1 0xEF b
    then lead 2 (b - 0xE0) 0x80 0xBF
    else if b == 0xF0
    then lead 3 0 0x90 0xBF
    else if between 0xF1 0xF3 b
    then lead 3 (b - 0xF0) 0x80 0xBF
    else if b == 0xF4
    then lead 3 4 0x80 0x8F
    else none

abbrev pub emit : ℕ → Option (List ℕ) → Option (List ℕ)
emit c none = none
emit c (some cs) = some (c ∷ cs)

-- The first four arguments tell how many bytes are still to come of a character, its bits so far,
-- and the bounds of its next byte.
unfoldable pub decode : ℕ → ℕ → ℕ → ℕ → List ℕ → Option (List ℕ)
unfolding lead_of
decode zero bits low high [] = some []
decode (suc n) bits low high [] = none
decode zero bits low high (b ∷ bs) = elim (lead_of b) [
  | none ↦ none
  | some l ↦
      let rest = decode l.following l.bits l.low l.high bs in
      elim l.following [ zero ↦ emit l.bits rest | suc n ↦ rest ]
]
decode (suc n) bits low high (b ∷ bs) =
    let all = bits * 64 + (b - 0x80) in
    let rest = decode n all 0x80 0xBF bs in
    if between low high b then elim n [ zero ↦ emit all rest | suc k ↦ rest ] else none

unfoldable pub from_utf8 : List ℕ → Option (List ℕ)
unfolding decode
from_utf8 bytes = decode 0 0 0 0 bytes
