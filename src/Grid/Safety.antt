-- ===== src/Grid/Safety.antt =====
-- Every call of the parser on a well-formed grid: no panic, and a well-formed grid of the same size.
use cuartel.Common.{
  ℕ, ◌+◌, ◌-◌, ◌*◌, ◌/◌, min, ◌≤◌, ◌<◌, ◌≡◌, refl, ap, ◌∙◌, subst, inl, inr, Option, some, List, [],
  ◌∷◌, ◌++◌, ltb, leb, ◌==◌, length, All-append, length-append, length-replicate, arith, Bool-cases,
}
use cuartel.Grid.Defs.{
  Row, Grid, default_cell, blank_row, push_scrollback, scroll_up, line_feed, wrap, put_char,
}
use cuartel.Grid.Perform.{execute}
use cuartel.Grid.Bounds.{IsScreen, IsWellFormed, Keeps, write_cell-IsScreen, push_scrollback_le}

-- A change of the cursor alone.
module _ (g : Grid) (v : IsWellFormed g) where
  pub same-Keeps : Keeps g (some g)
  same-Keeps = record { left = g; returned = refl; formed = v; same_rows = refl; same_cols = refl }

  pub cursor-Keeps :
      (row col : ℕ)
      → row < g.rows
      → col ≤ g.cols
      → Keeps g (some (record g { cursor_row = row; cursor_col = col }))
  cursor-Keeps row col r c = record {
    left = record g { cursor_row = row; cursor_col = col };
    returned = refl;
    formed = record {
      rows_pos = v.rows_pos;
      cols_pos = v.cols_pos;
      screen = v.screen;
      row_in = r;
      col_in = c;
      kept = v.kept;
    };
    same_rows = refl;
    same_cols = refl;
  }

  pub screen-Keeps :
      (s : List Row) → IsScreen g.rows g.cols s → Keeps g (some (record g { screen = s }))
  screen-Keeps s h = record {
    left = record g { screen = s };
    returned = refl;
    formed = record {
      rows_pos = v.rows_pos;
      cols_pos = v.cols_pos;
      screen = h;
      row_in = v.row_in;
      col_in = v.col_in;
      kept = v.kept;
    };
    same_rows = refl;
    same_cols = refl;
  }

scrolled-IsScreen :
    (rows cols : ℕ) (row : Row) (rest : List Row)
    → IsScreen rows cols (row ∷ rest)
    → IsScreen rows cols (rest ++ blank_row cols ∷ [])
scrolled-IsScreen rows cols row rest (h, w) = (
  omega (arith, length-append rest (blank_row cols ∷ [])),
  All-append _ rest (blank_row cols ∷ []) w.1 (length-replicate cols default_cell, tt),
)

scroll_up-Keeps : (g : Grid) → IsWellFormed g → Keeps g (scroll_up g)
unfolding scroll_up
scroll_up-Keeps g v = go g.screen refl
  where
    go : (s : List Row) → g.screen ≡ s → Keeps g (scroll_up g)
    go [] e = absurd (omega (arith, ap length e, v.screen.0, v.rows_pos))
    go (row ∷ rest) e =
        rw (e, scroll_up)
          (record {
            left = record g {
              screen = rest ++ blank_row g.cols ∷ [];
              scrollback = push_scrollback g.scrollback_limit g.scrollback row;
            };
            returned = refl;
            formed = record {
              rows_pos = v.rows_pos;
              cols_pos = v.cols_pos;
              screen =
                  scrolled-IsScreen g.rows g.cols row rest
                    (subst (IsScreen g.rows g.cols) e v.screen);
              row_in = v.row_in;
              col_in = v.col_in;
              kept = push_scrollback_le g.scrollback_limit g.scrollback row;
            };
            same_rows = refl;
            same_cols = refl;
          })

line_feed-Keeps : (g : Grid) → IsWellFormed g → Keeps g (line_feed g)
unfolding line_feed
line_feed-Keeps g v = elim (Bool-cases (leb g.rows (g.cursor_row + 1))) [
  | inl bottom ↦ rw (bottom, line_feed) (scroll_up-Keeps g v)
  | inr above ↦
      rw (above, line_feed)
        (cursor-Keeps g v (g.cursor_row + 1) g.cursor_col (ground arith) v.col_in)
]

-- Keeping is transitive: the second call runs on the grid that the first left.
pub Keeps-trans :
    {g h : Grid} {o : Option Grid} → h.rows ≡ g.rows → h.cols ≡ g.cols → Keeps h o → Keeps g o
Keeps-trans r c k = record {
  left = k.left;
  returned = k.returned;
  formed = k.formed;
  same_rows = k.same_rows ∙ r;
  same_cols = k.same_cols ∙ c;
}

abbrev home : Grid → Grid
home g = record g { cursor_col = 0 }

home-IsWellFormed : (g : Grid) → IsWellFormed g → IsWellFormed (home g)
home-IsWellFormed g v = record {
  rows_pos = v.rows_pos;
  cols_pos = v.cols_pos;
  screen = v.screen;
  row_in = v.row_in;
  col_in = omega arith;
  kept = v.kept;
}

line_feed-col : (g : Grid) {h : Grid} → line_feed g ≡ some h → h.cursor_col ≡ g.cursor_col
unfolding line_feed scroll_up
line_feed-col g e = ground arith

-- After `wrap` the cursor is inside its row.
wrap-Keeps :
    (g : Grid) → IsWellFormed g → (k : Keeps g (wrap g)) × (k.left.cursor_col < k.left.cols)
unfolding wrap Keeps-trans
wrap-Keeps g v = elim (Bool-cases (leb g.cols g.cursor_col)) [
  | inr inside ↦ rw (inside, wrap) (same-Keeps g v, ground arith)
  | inl full ↦
      let k = line_feed-Keeps (home g) (home-IsWellFormed g v) in
      rw (full, wrap)
        (
          Keeps-trans refl refl k,
          omega (arith, line_feed-col (home g) k.returned, k.formed.cols_pos),
        )
]

pub put_char-Keeps : (g : Grid) (ch : ℕ) → IsWellFormed g → Keeps g (put_char g ch)
unfolding put_char
put_char-Keeps g ch v =
    let (k, inside) = wrap-Keeps g v in
    let h = k.left in
    let w = k.formed in
    let (s, e, screen) =
      write_cell-IsScreen h.rows h.cols h.screen h.cursor_row h.cursor_col
        (record { ch = ch; style = h.style }) w.screen w.row_in inside in
    record {
      left = record h { screen = s; cursor_col = h.cursor_col + 1 };
      returned = rw (k.returned, put_char) (rw e);
      formed = record {
        rows_pos = w.rows_pos;
        cols_pos = w.cols_pos;
        screen = screen;
        row_in = w.row_in;
        col_in = omega arith;
        kept = w.kept;
      };
      same_rows = k.same_rows;
      same_cols = k.same_cols;
    }

pub execute-Keeps : (g : Grid) (byte : ℕ) → IsWellFormed g → Keeps g (execute g byte)
unfolding execute
execute-Keeps g byte v = elim (Bool-cases (byte == 10)) [
  | inl lf ↦ rw (lf, execute) (line_feed-Keeps g v)
  | inr a ↦ elim (Bool-cases (byte == 13)) [
    | inl cr ↦ rw (a, cr, execute) (cursor-Keeps g v g.cursor_row 0 v.row_in (omega arith))
    | inr b ↦ elim (Bool-cases (byte == 8)) [
      | inl bs ↦
          rw (a, b, bs, execute)
            (elim (Bool-cases (ltb 0 g.cursor_col)) [
              | inl some_col ↦ rw some_col (
                  cursor-Keeps g v g.cursor_row (g.cursor_col - 1) v.row_in
                    (omega (arith, v.col_in)))
              | inr at_zero ↦ rw at_zero (same-Keeps g v)
            ])
      | inr c ↦ elim (Bool-cases (byte == 7)) [
        | inl bel ↦ rw (a, b, c, bel, execute) (same-Keeps g v)
        | inr d ↦ elim (Bool-cases (byte == 9)) [
          | inl tab ↦
              rw (a, b, c, d, tab, execute)
                (cursor-Keeps g v g.cursor_row (min ((g.cursor_col / 8 + 1) * 8) (g.cols - 1))
                  v.row_in (omega arith))
          | inr other ↦ rw (a, b, c, d, other, execute) (same-Keeps g v)
        ]
      ]
    ]
  ]
]
