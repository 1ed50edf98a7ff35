-- ===== src/Grid/Perform.antt =====
-- `impl Perform for GridPerform`: what the parser's calls do to the grid.
use cuartel.Common.{
  ℕ, zero, suc, ◌+◌, ◌-◌, ◌*◌, ◌/◌, min, max, Option, none, some, List, [], ◌∷◌, ◌++◌, ltb, ◌==◌,
  ◌||◌, length, get_elem?, set, if◌then◌else◌,
}
use cuartel.Grid.Defs.{Grid, Row, default_cell, blank_row, ◌>>=◌, put_char, line_feed}
use cuartel.Grid.Style.{or_default, next_first, apply_sgr}

-- `execute`: the control characters.
unfoldable pub execute : Grid → ℕ → Option Grid
execute g byte =
    if byte == 10
    then line_feed g
    else if byte == 13
    then some (record g { cursor_col = 0 })
    else if byte == 8
    then some (if ltb 0 g.cursor_col then record g { cursor_col = g.cursor_col - 1 } else g)
    else if byte == 7
    then some g
    else if byte == 9
    then some (record g { cursor_col = min ((g.cursor_col / 8 + 1) * 8) (g.cols - 1) })
    else some g

-- `for c in from..from + count { screen[row][c] = Cell::default() }`
unfoldable pub clear_cells : List Row → ℕ → ℕ → ℕ → Option (List Row)
clear_cells screen row from zero = some screen
clear_cells screen row from (suc count) = elim (get_elem? screen row) [
  | none ↦ none
  | some line ↦ elim (get_elem? line from) [
    | none ↦ none
    | some old ↦ clear_cells (set screen row (set line from default_cell)) row (suc from) count
  ]
]

-- `for r in from..from + count { screen[r] = blank_row(cols) }`
unfoldable pub clear_rows : ℕ → List Row → ℕ → ℕ → Option (List Row)
clear_rows cols screen from zero = some screen
clear_rows cols screen from (suc count) = elim (get_elem? screen from) [
  | none ↦ none
  | some old ↦ clear_rows cols (set screen from (blank_row cols)) (suc from) count
]

-- The length of `0..=cursor_col.min(cols - 1)`; `cols - 1` panics for a grid with no columns.
unfoldable pub up_to_cursor : Grid → Option ℕ
up_to_cursor g = if g.cols == 0 then none else some (min g.cursor_col (g.cols - 1) + 1)

unfoldable pub put_screen : Grid → Option (List Row) → Option Grid
put_screen g none = none
put_screen g (some screen) = some (record g { screen = screen })

-- CSI J
unfoldable pub erase_display : Grid → ℕ → Option Grid
unfolding clear_cells clear_rows up_to_cursor put_screen
erase_display g mode =
    if mode == 0
    then put_screen g (do
      screen ← clear_cells g.screen g.cursor_row g.cursor_col (g.cols - g.cursor_col)
      clear_rows g.cols screen (g.cursor_row + 1) (g.rows - (g.cursor_row + 1)))
    else if mode == 1
    then put_screen g (do
      screen ← clear_rows g.cols g.screen 0 g.cursor_row
      count ← up_to_cursor g
      clear_cells screen g.cursor_row 0 count)
    else if mode == 2 || mode == 3
    then put_screen g (clear_rows g.cols g.screen 0 g.rows)
    else some g

-- CSI K
unfoldable pub erase_line : Grid → ℕ → Option Grid
unfolding clear_cells clear_rows up_to_cursor put_screen
erase_line g mode =
    if mode == 0
    then put_screen g (clear_cells g.screen g.cursor_row g.cursor_col (g.cols - g.cursor_col))
    else if mode == 1
    then put_screen g (do count ← up_to_cursor g; clear_cells g.screen g.cursor_row 0 count)
    else if mode == 2
    then put_screen g (clear_rows g.cols g.screen g.cursor_row 1)
    else some g

-- `Vec::remove` at an index below the length.
unfoldable pub remove : Row → ℕ → Row
remove [] i = []
remove (x ∷ xs) zero = xs
remove (x ∷ xs) (suc i) = x ∷ remove xs i

-- CSI P on one line.
unfoldable pub delete_chars : ℕ → ℕ → Row → Row
unfolding remove
delete_chars zero col line = line
delete_chars (suc n) col line =
    delete_chars n col
      (if ltb col (length line) then remove line col ++ default_cell ∷ [] else line)

unfoldable pub delete_at_cursor : Grid → ℕ → Option Grid
unfolding delete_chars
delete_at_cursor g n = elim (get_elem? g.screen g.cursor_row) [
  | none ↦ none
  | some line ↦
      some (record g { screen = set g.screen g.cursor_row (delete_chars n g.cursor_col line) })
]

-- CSI H and CSI f: one-based, with a missing or zero coordinate read as one.
unfoldable pub move_to : Grid → List (List ℕ) → Grid
move_to g params =
    let (row, rest) = next_first params in
    let (col, after) = next_first rest in
    record g {
      cursor_row = min (max (or_default row 1) 1 - 1) (g.rows - 1);
      cursor_col = min (max (or_default col 1) 1 - 1) (g.cols - 1);
    }

-- The style after CSI m; the fuel of `apply_sgr` never runs out.
unfoldable pub select_style : Grid → List (List ℕ) → Option Grid
select_style g params = do style ← apply_sgr g.style params; some (record g { style = style })

unfoldable pub csi_dispatch : Grid → List (List ℕ) → ℕ → Option Grid
unfolding erase_display erase_line delete_at_cursor move_to select_style
csi_dispatch g params action =
    let head = or_default (next_first params).0 0 in
    let n = max head 1 in
    if action == b'A'
    then some (record g { cursor_row = g.cursor_row - n })
    else if action == b'B'
    then some (record g { cursor_row = min (g.cursor_row + n) (g.rows - 1) })
    else if action == b'C'
    then some (record g { cursor_col = min (g.cursor_col + n) (g.cols - 1) })
    else if action == b'D'
    then some (record g { cursor_col = g.cursor_col - n })
    else if action == b'H' || action == b'f'
    then some (move_to g params)
    else if action == b'J'
    then erase_display g head
    else if action == b'K'
    then erase_line g head
    else if action == b'P'
    then delete_at_cursor g n
    else if action == b'm'
    then select_style g params
    else some g

-- A call of the parser. The other methods of `Perform` have empty bodies.
pub data Event : Type 0 where
  print : ℕ → Event
  control : ℕ → Event
  csi : List (List ℕ) → ℕ → Event
  ignored : Event

unfoldable pub perform : Grid → Event → Option Grid
unfolding execute csi_dispatch
perform g (print ch) = put_char g ch
perform g (control byte) = execute g byte
perform g (csi params action) = csi_dispatch g params action
perform g ignored = some g

-- `Terminal::advance`: the calls that the bytes lead to, one after another.
unfoldable pub advance : Grid → List Event → Option Grid
unfolding perform
advance g [] = some g
advance g (e ∷ es) = elim (perform g e) [ none ↦ none | some h ↦ advance h es ]
