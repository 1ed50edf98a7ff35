-- ===== src/Grid/Defs.antt =====
-- The grid and its own methods.
use cuartel.Common.{
  ℕ, ◌+◌, ◌-◌, Bool, false, Option, none, some, List, [], ◌∷◌, ◌++◌, map, ltb, leb, length,
  get_elem?, set, take, drop, replicate, if◌then◌else◌,
}

pub data Color : Type 0 where
  default : Color
  indexed : ℕ → Color
  rgb : ℕ → ℕ → ℕ → Color

pub record CellStyle : Type 0 where
  pub fg : Color
  pub bg : Color
  pub bold : Bool

abbrev pub default_style : CellStyle
default_style = record { fg = default; bg = default; bold = false }

pub record Cell : Type 0 where
  pub ch : ℕ
  pub style : CellStyle

abbrev pub default_cell : Cell
default_cell = record { ch = b' '; style = default_style }

abbrev pub Row : Type 0
Row = List Cell

pub record Grid : Type 0 where
  pub rows : ℕ
  pub cols : ℕ
  pub screen : List Row
  pub scrollback : List Row
  pub cursor_row : ℕ
  pub cursor_col : ℕ
  pub style : CellStyle
  pub scrollback_limit : ℕ

-- A panic, or the grid that is left.
infixl 5 ◌>>=◌
abbrev pub ◌>>=◌ {ℓ κ} : {A : Type ℓ} {B : Type κ} → Option A → (A → Option B) → Option B
none >>= f = none
some a >>= f = f a

abbrev pub blank_row : ℕ → Row
blank_row cols = replicate cols default_cell

unfoldable pub new : ℕ → ℕ → Grid
new rows cols = record {
  rows = rows;
  cols = cols;
  screen = replicate rows (blank_row cols);
  scrollback = [];
  cursor_row = 0;
  cursor_col = 0;
  style = default_style;
  scrollback_limit = 5000;
}

-- `Vec::resize` of a row: cut off at the end or filled up with blank cells.
unfoldable pub resize_row : ℕ → Row → Row
resize_row cols row = take cols row ++ replicate (cols - length row) default_cell

-- The cursor is pulled back into the new size.
abbrev clamp : ℕ → ℕ → ℕ
clamp pos size = if leb size pos then size - 1 else pos

unfoldable pub resize : Grid → ℕ → ℕ → Grid
unfolding resize_row
resize g rows cols =
    let widened = map (resize_row cols) g.screen in
    record g {
      rows = rows;
      cols = cols;
      screen =
          if ltb g.rows rows
          then widened ++ replicate (rows - g.rows) (blank_row cols)
          else if ltb rows g.rows
          then take rows widened
          else widened;
      cursor_row = clamp g.cursor_row rows;
      cursor_col = clamp g.cursor_col cols;
    }

-- `push`, and `drain` of what is over the limit, oldest first.
unfoldable pub push_scrollback : ℕ → List Row → Row → List Row
push_scrollback limit lines row =
    let all_lines = lines ++ row ∷ [] in
    if ltb limit (length all_lines) then drop (length all_lines - limit) all_lines else all_lines

unfoldable pub scroll_up : Grid → Option Grid
unfolding push_scrollback
scroll_up g = elim g.screen [
  | [] ↦ none
  | row ∷ rest ↦ some (record g {
    screen = rest ++ blank_row g.cols ∷ [];
    scrollback = push_scrollback g.scrollback_limit g.scrollback row;
  })
]

unfoldable pub line_feed : Grid → Option Grid
unfolding scroll_up
line_feed g =
    if leb g.rows (g.cursor_row + 1)
    then scroll_up g
    else some (record g { cursor_row = g.cursor_row + 1 })

-- `&mut self.screen[row][col]` and an assignment to it.
unfoldable pub write_cell : List Row → ℕ → ℕ → Cell → Option (List Row)
write_cell screen row col cell = elim (get_elem? screen row) [
  | none ↦ none
  | some line ↦ elim (get_elem? line col) [
    | none ↦ none
    | some old ↦ some (set screen row (set line col cell))
  ]
]

-- A full line is left before the next character is put down.
unfoldable pub wrap : Grid → Option Grid
unfolding line_feed
wrap g = if leb g.cols g.cursor_col then line_feed (record g { cursor_col = 0 }) else some g

unfoldable pub put_char : Grid → ℕ → Option Grid
unfolding wrap write_cell
put_char g ch = do
  h ← wrap g
  screen ← write_cell h.screen h.cursor_row h.cursor_col (record { ch = ch; style = h.style })
  some (record h { screen = screen; cursor_col = h.cursor_col + 1 })

unfoldable pub visible_rows : Grid → List Row
visible_rows g = g.scrollback ++ g.screen
