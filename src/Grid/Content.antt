-- ===== src/Grid/Content.antt =====
-- What the calls of the parser leave on the screen and behind it.
use cuartel.Common.{
  ℕ, zero, suc, ◌+◌, ◌<◌, ◌≡◌, ◌≢◌, refl, sym, ap, ◌∙◌, ◌⊎◌, inl, inr, true, false, Option, some,
  List, [], ◌∷◌, ◌++◌, ltb, leb, ◌==◌, length, get_elem?, set, replicate, All-get_elem?,
  length-append, get_elem?_of_lt, arith, ltb→lt, Bool-cases,
}
use cuartel.Grid.Defs.{
  Cell, Row, Grid, blank_row, ◌>>=◌, push_scrollback, scroll_up, line_feed, write_cell, wrap,
  put_char, visible_rows,
}
use cuartel.Grid.Perform.{clear_rows, put_screen, erase_display}
use cuartel.Grid.Bounds.{IsWellFormed}

append_assoc {ℓ} : {A : Type ℓ} (xs ys zs : List A) → (xs ++ ys) ++ zs ≡ xs ++ (ys ++ zs)
append_assoc [] ys zs = refl
append_assoc (x ∷ xs) ys zs = ap (λ r. x ∷ r) (append_assoc xs ys zs)

push_scrollback_below :
    (limit : ℕ) (lines : List Row) (row : Row)
    → length lines < limit
    → push_scrollback limit lines row ≡ lines ++ row ∷ []
unfolding push_scrollback
push_scrollback_below limit lines row h =
    elim (Bool-cases (ltb limit (length (lines ++ row ∷ [])))) [
      | inl over ↦ absurd (omega (arith, ltb→lt _ _ over, length-append lines (row ∷ [])))
      | inr fits ↦ rw fits refl
    ]

-- A line feed in the last row of a well-formed grid whose scrollback is below its limit loses no
-- line: what is visible is what was visible before and one blank row.
pub line_feed-visible_rows :
    (g : Grid)
    → IsWellFormed g
    → g.cursor_row + 1 ≡ g.rows
    → length g.scrollback < g.scrollback_limit
    → (h : Grid) × (line_feed g ≡ some h)
      × (visible_rows h ≡ visible_rows g ++ blank_row g.cols ∷ [])
unfolding line_feed scroll_up visible_rows
line_feed-visible_rows g v bottom below = go g.screen refl
  where
    at_bottom : leb g.rows (g.cursor_row + 1) ≡ true
    at_bottom = ground (arith, bottom)

    go :
        (s : List Row)
        → g.screen ≡ s
        → (h : Grid) × (line_feed g ≡ some h)
          × (visible_rows h ≡ visible_rows g ++ blank_row g.cols ∷ [])
    go [] e = absurd (omega (arith, ap length e, v.screen.0, v.rows_pos))
    go (row ∷ rest) e = (
      record g {
        screen = rest ++ blank_row g.cols ∷ [];
        scrollback = push_scrollback g.scrollback_limit g.scrollback row;
      },
      rw (at_bottom, line_feed) (rw (e, scroll_up) refl),
      rw (push_scrollback_below g.scrollback_limit g.scrollback row below, e)
          (append_assoc g.scrollback (row ∷ []) (rest ++ blank_row g.cols ∷ [])
            ∙ sym (append_assoc g.scrollback (row ∷ rest) (blank_row g.cols ∷ []))),
    )

-- The cell of a row and a column.
abbrev pub cell_at : List Row → ℕ → ℕ → Option Cell
cell_at s row col = get_elem? s row >>= λ line. get_elem? line col

set_same {ℓ} :
    {A : Type ℓ} (xs : List A) (i : ℕ) (x : A) → i < length xs → get_elem? (set xs i x) i ≡ some x
set_same [] i x h = absurd (omega arith)
set_same (y ∷ ys) zero x h = refl
set_same (y ∷ ys) (suc i) x h = set_same ys i x (omega arith)

set_other {ℓ} :
    {A : Type ℓ} (xs : List A) (i j : ℕ) (x : A) → i ≢ j → get_elem? (set xs i x) j ≡ get_elem? xs j
set_other [] i j x n = refl
set_other (y ∷ ys) zero zero x n = absurd (n refl)
set_other (y ∷ ys) zero (suc j) x n = refl
set_other (y ∷ ys) (suc i) zero x n = refl
set_other (y ∷ ys) (suc i) (suc j) x n = set_other ys i j x (λ e. n (ap suc e))

cell_at-set :
    (s : List Row) (r c : ℕ) (line : Row) (cell : Cell)
    → get_elem? s r ≡ some line
    → r < length s
    → (row col : ℕ) → (row ≢ r) ⊎ (col ≢ c)
    → cell_at (set s r (set line c cell)) row col ≡ cell_at s row col
cell_at-set s r c line cell at h row col n = elim (Bool-cases (row == r)) [
  | inr differs ↦
      let apart : r ≢ row = λ e. ground arith in
      ap (λ o. o >>= λ l. get_elem? l col) (set_other s r row (set line c cell) apart)
  | inl same ↦
      let e : row ≡ r = ground arith in
      rw (e, set_same s r (set line c cell) h, at)
        (set_other line c col cell (λ d. elim n [ inl a ↦ absurd (a e) | inr a ↦ a (sym d) ]))
]

-- A character put down inside the row of a well-formed grid stands in the cursor's cell, in the
-- style of the grid; every other cell and the scrollback are as before, and the cursor is one
-- column further.
pub put_char-cell_at :
    (g : Grid) (ch : ℕ)
    → IsWellFormed g
    → g.cursor_col < g.cols
    → (h : Grid) × (put_char g ch ≡ some h)
      × (cell_at h.screen g.cursor_row g.cursor_col ≡ some (record { ch = ch; style = g.style }))
      × ((row col : ℕ)
          → (row ≢ g.cursor_row) ⊎ (col ≢ g.cursor_col)
          → cell_at h.screen row col ≡ cell_at g.screen row col)
      × (h.scrollback ≡ g.scrollback)
      × (h.cursor_row ≡ g.cursor_row)
      × (h.cursor_col ≡ g.cursor_col + 1)
unfolding put_char wrap write_cell
put_char-cell_at g ch v inside =
    let (line, at) = get_elem?_of_lt g.screen g.cursor_row (omega (arith, v.row_in, v.screen.0)) in
    let wide : length line ≡ g.cols = All-get_elem? _ g.screen g.cursor_row line v.screen.1 at in
    let (old, at') = get_elem?_of_lt line g.cursor_col (omega arith) in
    let cell : Cell = record { ch = ch; style = g.style } in
    let full : leb g.cols g.cursor_col ≡ false = ground arith in
    let line' = set line g.cursor_col cell in
    let here : get_elem? (set g.screen g.cursor_row line') g.cursor_row ≡ some line' =
      set_same g.screen g.cursor_row line' (omega (arith, v.row_in, v.screen.0)) in
    (
      record g { screen = set g.screen g.cursor_row line'; cursor_col = g.cursor_col + 1 },
      rw (full, put_char) (rw (at, write_cell) (rw (at', write_cell) refl)),
      rw here (set_same line g.cursor_col cell (omega arith)),
      cell_at-set g.screen g.cursor_row g.cursor_col line cell at
          (omega (arith, v.row_in, v.screen.0)),
      refl,
      refl,
      refl,
    )

get_elem?_mid {ℓ} :
    {A : Type ℓ} (xs : List A) (x : A) (ys : List A) → get_elem? (xs ++ x ∷ ys) (length xs) ≡ some x
get_elem?_mid [] x ys = refl
get_elem?_mid (y ∷ xs) x ys = get_elem?_mid xs x ys

set_mid {ℓ} :
    {A : Type ℓ} (xs : List A) (x y : A) (ys : List A)
    → set (xs ++ x ∷ ys) (length xs) y ≡ (xs ++ y ∷ []) ++ ys
set_mid [] x y ys = refl
set_mid (z ∷ xs) x y ys = ap (λ r. z ∷ r) (set_mid xs x y ys)

clear_rows_all :
    (cols : ℕ) (count : ℕ) (done s : List Row)
    → length s ≡ count
    → clear_rows cols (done ++ s) (length done) count
      ≡ some (done ++ replicate count (blank_row cols))
unfolding clear_rows
clear_rows_all cols zero done [] h = refl
clear_rows_all cols zero done (x ∷ s) h = absurd (omega arith)
clear_rows_all cols (suc count) done [] h = absurd (omega arith)
clear_rows_all cols (suc count) done (x ∷ s) h =
    let b = blank_row cols in
    let len : length (done ++ b ∷ []) ≡ suc (length done) =
      length-append done (b ∷ []) ∙ omega arith in
    let step = clear_rows_all cols count (done ++ b ∷ []) s (omega arith) in
    rw (get_elem?_mid done x s, clear_rows)
      (rw (set_mid done x b s) (
        ap (λ n. clear_rows cols ((done ++ b ∷ []) ++ s) n count) (sym len)
        ∙ step
        ∙ ap some (append_assoc done (b ∷ []) (replicate count b))))

-- CSI 2 J and CSI 3 J blank every cell of a well-formed grid and change nothing else.
pub erase_display-blank :
    (g : Grid) (mode : ℕ)
    → IsWellFormed g
    → (mode ≡ 2) ⊎ (mode ≡ 3)
    → erase_display g mode ≡ some (record g { screen = replicate g.rows (blank_row g.cols) })
unfolding erase_display put_screen
erase_display-blank g mode v m =
    let all : clear_rows g.cols g.screen 0 g.rows ≡ some (replicate g.rows (blank_row g.cols)) =
      clear_rows_all g.cols g.rows [] g.screen v.screen.0 in
    elim m [
      | inl two ↦ rw (two, erase_display) (rw (all, put_screen) refl)
      | inr three ↦ rw (three, erase_display) (rw (all, put_screen) refl)
    ]
