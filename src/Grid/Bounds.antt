-- ===== src/Grid/Bounds.antt =====
-- A well-formed grid stays well formed under every call of the parser, and no call panics.
use cuartel.Common.{
  ℕ, zero, suc, ◌+◌, ◌-◌, ◌≤◌, ◌<◌, ◌≡◌, refl, ◌∙◌, inl, inr, Option, some, List, [], ◌∷◌, ◌++◌,
  ltb, length, set, All, All-set, All-get_elem?, All-replicate, length-set, length-replicate,
  length-drop, get_elem?_of_lt, arith, ltb→lt, Bool-cases,
}
use cuartel.Grid.Defs.{Cell, Row, Grid, default_cell, blank_row, new, push_scrollback, write_cell}
use cuartel.Grid.Perform.{clear_cells, clear_rows}

-- A screen of `rows` rows of `cols` cells.
abbrev pub IsScreen : ℕ → ℕ → List Row → Type 0
IsScreen rows cols s = (length s ≡ rows) × All (λ r. length r ≡ cols) s

pub record IsWellFormed (g : Grid) : Type 0 where
  pub rows_pos : 0 < g.rows
  pub cols_pos : 0 < g.cols
  pub screen : IsScreen g.rows g.cols g.screen
  pub row_in : g.cursor_row < g.rows
  pub col_in : g.cursor_col ≤ g.cols
  pub kept : length g.scrollback ≤ g.scrollback_limit

pub new-IsWellFormed : (rows cols : ℕ) → 0 < rows → 0 < cols → IsWellFormed (new rows cols)
unfolding new
new-IsWellFormed rows cols h k = record {
  rows_pos = h;
  cols_pos = k;
  screen = (
    length-replicate rows (blank_row cols),
    All-replicate _ rows (blank_row cols) (length-replicate cols default_cell),
  );
  row_in = h;
  col_in = omega arith;
  kept = omega arith;
}

-- Some grid is left, well formed and of the size of the one before.
pub record Keeps (g : Grid) (o : Option Grid) : Type 0 where
  pub left : Grid
  pub returned : o ≡ some left
  pub formed : IsWellFormed left
  pub same_rows : left.rows ≡ g.rows
  pub same_cols : left.cols ≡ g.cols

pub write_cell-IsScreen :
    (rows cols : ℕ) (s : List Row) (row col : ℕ) (cell : Cell)
    → IsScreen rows cols s
    → row < rows
    → col < cols
    → (s' : List Row) × (write_cell s row col cell ≡ some s') × IsScreen rows cols s'
unfolding write_cell
write_cell-IsScreen rows cols s row col cell (h, w) r c =
    let (line, at) = get_elem?_of_lt s row (omega arith) in
    let wide : length line ≡ cols = All-get_elem? _ s row line w at in
    let (old, at') = get_elem?_of_lt line col (omega arith) in
    (
      set s row (set line col cell),
      rw (at, write_cell) (rw (at', write_cell)),
      (length-set s row _ ∙ h, All-set _ s row _ w (length-set line col cell ∙ wide)),
    )

pub clear_cells-IsScreen :
    (rows cols : ℕ) (s : List Row) (row from count : ℕ)
    → IsScreen rows cols s
    → row < rows
    → from + count ≤ cols
    → (s' : List Row) × (clear_cells s row from count ≡ some s') × IsScreen rows cols s'
unfolding clear_cells
clear_cells-IsScreen rows cols s row from zero h r c = (s, refl, h)
clear_cells-IsScreen rows cols s row from (suc count) (h, w) r c =
    let (line, at) = get_elem?_of_lt s row (omega arith) in
    let wide : length line ≡ cols = All-get_elem? _ s row line w at in
    let (old, at') = get_elem?_of_lt line from (omega arith) in
    let (s', e, k) =
      clear_cells-IsScreen rows cols (set s row (set line from default_cell)) row (suc from) count
        (length-set s row _ ∙ h, All-set _ s row _ w (length-set line from default_cell ∙ wide)) r
        (omega arith) in
    (s', rw (at, clear_cells) (rw (at', clear_cells) e), k)

pub clear_rows-IsScreen :
    (rows cols : ℕ) (s : List Row) (from count : ℕ)
    → IsScreen rows cols s
    → from + count ≤ rows
    → (s' : List Row) × (clear_rows cols s from count ≡ some s') × IsScreen rows cols s'
unfolding clear_rows
clear_rows-IsScreen rows cols s from zero h c = (s, refl, h)
clear_rows-IsScreen rows cols s from (suc count) (h, w) c =
    let (line, at) = get_elem?_of_lt s from (omega arith) in
    let (s', e, k) =
      clear_rows-IsScreen rows cols (set s from (blank_row cols)) (suc from) count
        (length-set s from _ ∙ h, All-set _ s from _ w (length-replicate cols default_cell))
        (omega arith) in
    (s', rw (at, clear_rows) e, k)

pub push_scrollback_le :
    (limit : ℕ) (lines : List Row) (row : Row) → length (push_scrollback limit lines row) ≤ limit
unfolding push_scrollback
push_scrollback_le limit lines row = elim (Bool-cases (ltb limit (length (lines ++ row ∷ [])))) [
  | inl over ↦ rw over (
      omega (
        arith,
        length-drop (length (lines ++ row ∷ []) - limit) (lines ++ row ∷ []),
        ltb→lt _ _ over,
      ))
  | inr fits ↦ rw fits (ground arith)
]
