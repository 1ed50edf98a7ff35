-- ===== src/Grid/Tests.antt =====
-- Runs of the terminal on a grid of two rows and three columns.
use cuartel.Common.{
  true, ℕ, ◌+◌, ◌≡◌, ◌≢◌, refl, ◌⊎◌, some, List, [], ◌∷◌, ◌++◌, map, length, arith,
}
use cuartel.Grid.Defs.{
  Grid, ◌>>=◌, default, rgb, default_style, blank_row, new, line_feed, put_char, resize,
  visible_rows,
}
use cuartel.Grid.Style.{apply_sgr}
use cuartel.Grid.Perform.{Event, print, control, csi, advance}
use cuartel.Grid.Bounds.{IsWellFormed, Keeps, new-IsWellFormed}
use cuartel.Grid.Runs.{advance-Keeps, resize-IsWellFormed}
use cuartel.Grid.Content.{cell_at, line_feed-visible_rows, put_char-cell_at}

abbrev tiny : Grid
tiny = new 2 3

tiny-IsWellFormed : IsWellFormed tiny
tiny-IsWellFormed = new-IsWellFormed 2 3 (omega arith) (omega arith)

-- Seven characters, a line feed, a bold colour, a cell deleted and the display erased.
abbrev calls : List Event
calls =
    map print (97 ∷ 98 ∷ 99 ∷ 100 ∷ 101 ∷ 102 ∷ 103 ∷ [])
    ++ control 10
      ∷ csi ((1 ∷ []) ∷ (38 ∷ []) ∷ (5 ∷ []) ∷ (200 ∷ []) ∷ []) b'm'
      ∷ csi [] b'P'
      ∷ csi ((2 ∷ []) ∷ (9 ∷ []) ∷ []) b'H'
      ∷ csi ((1 ∷ []) ∷ []) b'J'
      ∷ []

advance-Keeps_example : Keeps tiny (advance tiny calls)
advance-Keeps_example = advance-Keeps tiny calls tiny-IsWellFormed

calls_scroll : (advance tiny calls >>= λ g. some (length g.scrollback)) ≡ some 2
unfolding advance new put_char apply_sgr
calls_scroll = refl

resize-IsWellFormed_example :
    IsWellFormed (resize tiny 1 5)
    × ((resize tiny 1 5).rows ≡ 1)
    × ((resize tiny 1 5).cols ≡ 5)
    × ((resize tiny 1 5).scrollback ≡ tiny.scrollback)
resize-IsWellFormed_example =
    resize-IsWellFormed tiny 1 5 tiny-IsWellFormed (omega arith) (omega arith)

abbrev bottom : Grid
bottom = record tiny { cursor_row = 1; cursor_col = 2 }

bottom-IsWellFormed : IsWellFormed bottom
unfolding new
bottom-IsWellFormed = record {
  rows_pos = omega arith;
  cols_pos = omega arith;
  screen = (refl, (refl, (refl, tt)));
  row_in = omega arith;
  col_in = omega arith;
  kept = omega arith;
}

line_feed-visible_rows_example :
    (h : Grid) × (line_feed bottom ≡ some h)
    × (visible_rows h ≡ visible_rows bottom ++ blank_row bottom.cols ∷ [])
unfolding new
line_feed-visible_rows_example =
    line_feed-visible_rows bottom bottom-IsWellFormed refl (omega arith)

put_char-cell_at_example :
    (h : Grid) × (put_char bottom 120 ≡ some h)
    × (cell_at h.screen bottom.cursor_row bottom.cursor_col
        ≡ some (record { ch = 120; style = bottom.style }))
    × ((row col : ℕ)
        → (row ≢ bottom.cursor_row) ⊎ (col ≢ bottom.cursor_col)
        → cell_at h.screen row col ≡ cell_at bottom.screen row col)
    × (h.scrollback ≡ bottom.scrollback)
    × (h.cursor_row ≡ bottom.cursor_row)
    × (h.cursor_col ≡ bottom.cursor_col + 1)
unfolding new
put_char-cell_at_example = put_char-cell_at bottom 120 bottom-IsWellFormed (omega arith)

abbrev params : List (List ℕ)
params = (1 ∷ []) ∷ (48 ∷ []) ∷ (2 ∷ []) ∷ (256 ∷ []) ∷ []

params_style :
    apply_sgr default_style params ≡ some (record { fg = default; bg = rgb 0 0 0; bold = true })
unfolding apply_sgr
params_style = refl
