-- ===== src/Grid/Style.antt =====
-- `apply_sgr`: the colours and the weight that a CSI m sequence selects.
use cuartel.Common.{
  ℕ, zero, suc, ◌+◌, ◌-◌, ◌%◌, Bool, true, false, ◌&&◌, Option, none, some, List, [], ◌∷◌, leb,
  ◌==◌, length, if◌then◌else◌,
}
use cuartel.Grid.Defs.{Color, default, indexed, rgb, CellStyle, default_style}

-- The first value of a parameter, which is a list of subparameters.
abbrev pub first : List ℕ → Option ℕ
first [] = none
first (v ∷ vs) = some v

abbrev pub or_default : Option ℕ → ℕ → ℕ
or_default none d = d
or_default (some v) d = v

-- `as u8`
abbrev pub u8 : ℕ → ℕ
u8 n = n % 256

-- `iter.next().and_then(|s| s.first().copied())`
abbrev pub next_first : List (List ℕ) → Option ℕ × List (List ℕ)
next_first [] = (none, [])
next_first (p ∷ ps) = (first p, ps)

-- The colour of a 38 or 48 code, `none` for no change, and the parameters behind it.
unfoldable pub extended_color : List (List ℕ) → Option Color × List (List ℕ)
extended_color [] = (none, [])
extended_color (p ∷ ps) = elim (first p) [
  | none ↦ (none, ps)
  | some kind ↦
      if kind == 5
      then (let (idx, rest) = next_first ps in
          (elim idx [ none ↦ none | some v ↦ some (indexed (u8 v)) ], rest))
      else if kind == 2
      then (let (r, after_r) = next_first ps in
          let (g, after_g) = next_first after_r in
          let (b, rest) = next_first after_g in
          (some (rgb (u8 (or_default r 0)) (u8 (or_default g 0)) (u8 (or_default b 0))), rest))
      else (none, ps)
]

abbrev within : ℕ → ℕ → ℕ → Bool
within lo hi v = leb lo v && leb v hi

-- The codes that stand alone.
unfoldable pub simple_code : CellStyle → ℕ → CellStyle
simple_code style code =
    if code == 0
    then default_style
    else if code == 1
    then record style { bold = true }
    else if code == 22
    then record style { bold = false }
    else if within 30 37 code
    then record style { fg = indexed (u8 (code - 30)) }
    else if code == 39
    then record style { fg = default }
    else if within 40 47 code
    then record style { bg = indexed (u8 (code - 40)) }
    else if code == 49
    then record style { bg = default }
    else if within 90 97 code
    then record style { fg = indexed (u8 (code - 90 + 8)) }
    else if within 100 107 code
    then record style { bg = indexed (u8 (code - 100 + 8)) }
    else style

abbrev set_fg : CellStyle → Option Color → CellStyle
set_fg style none = style
set_fg style (some c) = record style { fg = c }

abbrev set_bg : CellStyle → Option Color → CellStyle
set_bg style none = style
set_bg style (some c) = record style { bg = c }

-- One round of the loop: the style and the parameters that it leaves.
unfoldable pub sgr_round : CellStyle → List ℕ → List (List ℕ) → CellStyle × List (List ℕ)
unfolding simple_code extended_color
sgr_round style p ps =
    let code = or_default (first p) 0 in
    if code == 38
    then (let (color, rest) = extended_color ps in (set_fg style color, rest))
    else if code == 48
    then (let (color, rest) = extended_color ps in (set_bg style color, rest))
    else (simple_code style code, ps)

-- The loop, on fuel; `none` when the fuel runs out with parameters left.
unfoldable pub sgr_loop : ℕ → CellStyle → List (List ℕ) → Option CellStyle
unfolding sgr_round
sgr_loop fuel style [] = some style
sgr_loop zero style (p ∷ ps) = none
sgr_loop (suc fuel) style (p ∷ ps) =
    let (style', rest) = sgr_round style p ps in sgr_loop fuel style' rest

unfoldable pub apply_sgr : CellStyle → List (List ℕ) → Option CellStyle
unfolding sgr_loop
apply_sgr style params = sgr_loop (length params) style params
