-- ===== src/Grid/Edits.antt =====
-- The calls of the parser that erase, delete, move or restyle, and whole runs of calls.
use cuartel.Common.{
  ℕ, zero, suc, ◌+◌, ◌-◌, min, ◌≤◌, ◌<◌, ◌≡◌, refl, ◌∙◌, inl, inr, Bool, true, false, Option, some,
  List, [], ◌∷◌, ◌++◌, ltb, ◌==◌, ◌||◌, length, set, All-set, All-get_elem?, length-append,
  length-set, get_elem?_of_lt, if◌then◌else◌, arith, ltb→lt, Bool-cases,
}
use cuartel.Grid.Defs.{Row, Grid, default_cell, ◌>>=◌}
use cuartel.Grid.Perform.{
  clear_cells, up_to_cursor, put_screen, erase_display, erase_line, remove, delete_chars,
  delete_at_cursor, move_to,
}
use cuartel.Grid.Bounds.{IsScreen, IsWellFormed, Keeps, clear_cells-IsScreen, clear_rows-IsScreen}
use cuartel.Grid.Safety.{same-Keeps, cursor-Keeps, screen-Keeps}

-- A screen of the right size is returned.
abbrev Screens : ℕ → ℕ → Option (List Row) → Type 0
Screens rows cols o = (s : List Row) × (o ≡ some s) × IsScreen rows cols s

Screens-bind :
    (rows cols : ℕ) (o : Option (List Row)) (f : List Row → Option (List Row))
    → Screens rows cols o
    → ((s : List Row) → IsScreen rows cols s → Screens rows cols (f s))
    → Screens rows cols (o >>= f)
Screens-bind rows cols o f (s, e, h) k = let (t, e', h') = k s h in (t, rw e e', h')

pub if-Keeps :
    {g : Grid} {x y : Option Grid} (b : Bool) → Keeps g x → Keeps g y → Keeps g (if b then x else y)
if-Keeps true k l = k
if-Keeps false k l = l

put_screen-Keeps :
    (g : Grid) (o : Option (List Row))
    → IsWellFormed g
    → Screens g.rows g.cols o
    → Keeps g (put_screen g o)
unfolding put_screen
put_screen-Keeps g o v (s, e, h) = rw (e, put_screen) (screen-Keeps g v s h)

up_to_cursor_lem : (g : Grid) → IsWellFormed g → (n : ℕ) × (up_to_cursor g ≡ some n) × (n ≤ g.cols)
unfolding up_to_cursor
up_to_cursor_lem g v = elim (Bool-cases (g.cols == 0)) [
  | inl z ↦ absurd (ground (arith, v.cols_pos))
  | inr nz ↦
      (min g.cursor_col (g.cols - 1) + 1, rw (nz, up_to_cursor) refl, omega (arith, v.cols_pos))
]

-- The cells of the cursor's row up to the cursor.
head-Screens :
    (g : Grid) (s : List Row)
    → IsWellFormed g
    → IsScreen g.rows g.cols s
    → Screens g.rows g.cols (do count ← up_to_cursor g; clear_cells s g.cursor_row 0 count)
head-Screens g s v h =
    let (n, e, le) = up_to_cursor_lem g v in
    let (t, e', k) =
      clear_cells-IsScreen g.rows g.cols s g.cursor_row 0 n h v.row_in (omega (arith, le)) in
    (t, rw e e', k)

tail-Screens :
    (g : Grid)
    → IsWellFormed g
    → Screens g.rows g.cols (clear_cells g.screen g.cursor_row g.cursor_col (g.cols - g.cursor_col))
tail-Screens g v =
    clear_cells-IsScreen g.rows g.cols g.screen g.cursor_row g.cursor_col (g.cols - g.cursor_col)
      v.screen v.row_in (omega (arith, v.col_in))

pub erase_display-Keeps : (g : Grid) (mode : ℕ) → IsWellFormed g → Keeps g (erase_display g mode)
unfolding erase_display
erase_display-Keeps g mode v =
    if-Keeps (mode == 0)
      (put_screen-Keeps g _ v (
        Screens-bind g.rows g.cols _ _ (tail-Screens g v) (λ s h.
          clear_rows-IsScreen g.rows g.cols s (g.cursor_row + 1) (g.rows - (g.cursor_row + 1)) h
            (omega (arith, v.row_in)))))
      (if-Keeps (mode == 1)
        (put_screen-Keeps g _ v (
          Screens-bind g.rows g.cols _ _
            (clear_rows-IsScreen g.rows g.cols g.screen 0 g.cursor_row v.screen
              (omega (arith, v.row_in)))
            (λ s h. head-Screens g s v h)))
        (if-Keeps (mode == 2 || mode == 3)
          (put_screen-Keeps g _ v
            (clear_rows-IsScreen g.rows g.cols g.screen 0 g.rows v.screen (omega arith)))
          (same-Keeps g v)))

pub erase_line-Keeps : (g : Grid) (mode : ℕ) → IsWellFormed g → Keeps g (erase_line g mode)
unfolding erase_line
erase_line-Keeps g mode v = if-Keeps (mode == 0) (put_screen-Keeps g _ v (tail-Screens g v)) (
    if-Keeps (mode == 1) (put_screen-Keeps g _ v (head-Screens g g.screen v v.screen)) (
      if-Keeps (mode == 2)
        (put_screen-Keeps g _ v (
          clear_rows-IsScreen g.rows g.cols g.screen g.cursor_row 1 v.screen
            (omega (arith, v.row_in))))
        (same-Keeps g v)))

length-remove :
    (line : Row) (col : ℕ) → col < length line → length (remove line col) + 1 ≡ length line
unfolding remove
length-remove [] col h = absurd (omega arith)
length-remove (x ∷ xs) zero h = omega arith
length-remove (x ∷ xs) (suc i) h = omega (arith, length-remove xs i (omega arith))

length-delete_chars : (n col : ℕ) (line : Row) → length (delete_chars n col line) ≡ length line
unfolding delete_chars
length-delete_chars zero col line = refl
length-delete_chars (suc n) col line = elim (Bool-cases (ltb col (length line))) [
  | inl inside ↦
      rw (inside, delete_chars)
        (length-delete_chars n col (remove line col ++ default_cell ∷ [])
          ∙ length-append (remove line col) (default_cell ∷ [])
          ∙ length-remove line col (ltb→lt _ _ inside))
  | inr out ↦ rw (out, delete_chars) (length-delete_chars n col line)
]

pub delete_at_cursor-Keeps : (g : Grid) (n : ℕ) → IsWellFormed g → Keeps g (delete_at_cursor g n)
unfolding delete_at_cursor
delete_at_cursor-Keeps g n v =
    let (line, at) = get_elem?_of_lt g.screen g.cursor_row (omega (arith, v.row_in, v.screen.0)) in
    let wide : length line ≡ g.cols = All-get_elem? _ g.screen g.cursor_row line v.screen.1 at in
    rw (at, delete_at_cursor)
      (screen-Keeps g v (set g.screen g.cursor_row (delete_chars n g.cursor_col line)) (
        length-set g.screen g.cursor_row _ ∙ v.screen.0,
        All-set _ g.screen g.cursor_row _ v.screen.1
            (length-delete_chars n g.cursor_col line ∙ wide),
      ))

pub move_to-Keeps :
    (g : Grid) (params : List (List ℕ)) → IsWellFormed g → Keeps g (some (move_to g params))
unfolding move_to
move_to-Keeps g params v = cursor-Keeps g v _ _ (omega (arith, v.rows_pos)) (omega arith)
