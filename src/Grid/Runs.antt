-- ===== src/Grid/Runs.antt =====
-- Whole calls of the parser, runs of them, and the change of the size.
use cuartel.Common.{
  ℕ, zero, suc, ◌+◌, ◌-◌, min, max, ◌≤◌, ◌<◌, ◌≡◌, refl, ◌∙◌, inl, inr, some, List, [], ◌∷◌, map,
  ltb, ◌==◌, length, take, replicate, All, All-append, All-replicate, All-take, All-map, All-mono,
  length-append, length-replicate, length-take, length-take_le, length-map, arith, ltb→lt,
  Bool-cases, Option-cases,
}
use cuartel.Grid.Defs.{Row, Grid, CellStyle, default_cell, blank_row, resize_row, resize}
use cuartel.Grid.Style.{
  next_first, or_default, sgr_round, sgr_loop, apply_sgr, extended_color, first,
}
use cuartel.Grid.Perform.{
  select_style, csi_dispatch, Event, print, control, csi, ignored, perform, advance,
}
use cuartel.Grid.Bounds.{IsScreen, IsWellFormed, Keeps}
use cuartel.Grid.Safety.{same-Keeps, cursor-Keeps, Keeps-trans, put_char-Keeps, execute-Keeps}
use cuartel.Grid.Edits.{
  if-Keeps, erase_display-Keeps, erase_line-Keeps, delete_at_cursor-Keeps, move_to-Keeps,
}

length-next_first : (ps : List (List ℕ)) → length (next_first ps).1 ≤ length ps
length-next_first [] = omega arith
length-next_first (p ∷ ps) = omega arith

length-extended_color : (ps : List (List ℕ)) → length (extended_color ps).1 ≤ length ps
unfolding extended_color
length-extended_color [] = omega arith
length-extended_color (p ∷ ps) = elim (Option-cases (first p)) [
  | inl e ↦ rw (e, extended_color) (omega arith)
  | inr (kind, e) ↦ elim (Bool-cases (kind == 5)) [
    | inl five ↦ rw (e, five, extended_color) (omega (arith, length-next_first ps))
    | inr a ↦ elim (Bool-cases (kind == 2)) [
      | inl two ↦
          rw (e, a, two, extended_color)
            (omega (
              arith,
              length-next_first ps,
              length-next_first (next_first ps).1,
              length-next_first (next_first (next_first ps).1).1,
            ))
      | inr b ↦ rw (e, a, b, extended_color) (omega arith)
    ]
  ]
]

length-sgr_round :
    (style : CellStyle) (p : List ℕ) (ps : List (List ℕ))
    → length (sgr_round style p ps).1 ≤ length ps
unfolding sgr_round
length-sgr_round style p ps = elim (Bool-cases (or_default (first p) 0 == 38)) [
  | inl e ↦ rw (e, sgr_round) (length-extended_color ps)
  | inr a ↦ elim (Bool-cases (or_default (first p) 0 == 48)) [
    | inl e ↦ rw (a, e, sgr_round) (length-extended_color ps)
    | inr b ↦ rw (a, b, sgr_round) (omega arith)
  ]
]

-- Every round takes at least its own parameter away.
sgr_loop-returns :
    (fuel : ℕ) (style : CellStyle) (ps : List (List ℕ))
    → length ps ≤ fuel
    → (s : CellStyle) × (sgr_loop fuel style ps ≡ some s)
unfolding sgr_loop
sgr_loop-returns fuel style [] h = (style, refl)
sgr_loop-returns zero style (p ∷ ps) h = absurd (omega arith)
sgr_loop-returns (suc fuel) style (p ∷ ps) h =
    sgr_loop-returns fuel (sgr_round style p ps).0 (sgr_round style p ps).1
      (omega (arith, length-sgr_round style p ps))

-- The loop over the parameters of CSI m ends: its fuel is enough.
pub apply_sgr-returns :
    (style : CellStyle) (ps : List (List ℕ)) → (s : CellStyle) × (apply_sgr style ps ≡ some s)
unfolding apply_sgr
apply_sgr-returns style ps = sgr_loop-returns (length ps) style ps (omega arith)

style-Keeps : (g : Grid) (s : CellStyle) → IsWellFormed g → Keeps g (some (record g { style = s }))
style-Keeps g s v = record {
  left = record g { style = s };
  returned = refl;
  formed = record {
    rows_pos = v.rows_pos;
    cols_pos = v.cols_pos;
    screen = v.screen;
    row_in = v.row_in;
    col_in = v.col_in;
    kept = v.kept;
  };
  same_rows = refl;
  same_cols = refl;
}

select_style-Keeps :
    (g : Grid) (params : List (List ℕ)) → IsWellFormed g → Keeps g (select_style g params)
unfolding select_style
select_style-Keeps g params v =
    let (s, e) = apply_sgr-returns g.style params in rw (e, select_style) (style-Keeps g s v)

csi_dispatch-Keeps :
    (g : Grid) (params : List (List ℕ)) (action : ℕ)
    → IsWellFormed g
    → Keeps g (csi_dispatch g params action)
unfolding csi_dispatch
csi_dispatch-Keeps g params action v =
    let head = or_default (next_first params).0 0 in
    let n = max head 1 in
    if-Keeps _ (cursor-Keeps g v (g.cursor_row - n) g.cursor_col (omega (arith, v.row_in)) v.col_in)
      (if-Keeps _
        (cursor-Keeps g v (min (g.cursor_row + n) (g.rows - 1)) g.cursor_col
          (omega (arith, v.rows_pos)) v.col_in)
        (if-Keeps _
          (cursor-Keeps g v g.cursor_row (min (g.cursor_col + n) (g.cols - 1)) v.row_in
            (omega arith))
          (if-Keeps _
            (cursor-Keeps g v g.cursor_row (g.cursor_col - n) v.row_in (omega (arith, v.col_in)))
            (if-Keeps _ (move_to-Keeps g params v) (
              if-Keeps _ (erase_display-Keeps g head v) (
                if-Keeps _ (erase_line-Keeps g head v) (
                  if-Keeps _ (delete_at_cursor-Keeps g n v)
                    (if-Keeps _ (select_style-Keeps g params v) (same-Keeps g v)))))))))

pub perform-Keeps : (g : Grid) (e : Event) → IsWellFormed g → Keeps g (perform g e)
unfolding perform
perform-Keeps g (print ch) v = put_char-Keeps g ch v
perform-Keeps g (control byte) v = execute-Keeps g byte v
perform-Keeps g (csi params action) v = csi_dispatch-Keeps g params action v
perform-Keeps g ignored v = same-Keeps g v

-- Whatever calls the parser makes on a well-formed grid, none of them panics, and the grid that
-- is left is well formed and of the same size.
pub advance-Keeps : (g : Grid) (es : List Event) → IsWellFormed g → Keeps g (advance g es)
unfolding advance
advance-Keeps g [] v = same-Keeps g v
advance-Keeps g (e ∷ es) v =
    let k = perform-Keeps g e v in
    rw (k.returned, advance)
      (Keeps-trans k.same_rows k.same_cols (advance-Keeps k.left es k.formed))

length-resize_row : (cols : ℕ) (row : Row) → length (resize_row cols row) ≡ cols
unfolding resize_row
length-resize_row cols row =
    length-append (take cols row) _
    ∙ omega (arith, length-take cols row, length-replicate (cols - length row) default_cell)

resize-IsScreen :
    (g : Grid) (rows cols : ℕ)
    → IsScreen g.rows g.cols g.screen
    → IsScreen rows cols (resize g rows cols).screen
unfolding resize
resize-IsScreen g rows cols (h, w) =
    let widened = map (resize_row cols) g.screen in
    let count : length widened ≡ g.rows = length-map (resize_row cols) g.screen ∙ h in
    let wide : All (λ r. length r ≡ cols) widened =
      All-map _ (resize_row cols) g.screen
        (All-mono _ _ g.screen (λ r e. length-resize_row cols r) w) in
    elim (Bool-cases (ltb g.rows rows)) [
      | inl more ↦
          let fill = replicate (rows - g.rows) (blank_row cols) in
          rw (more, resize)
            (
              omega (
                arith,
                length-append widened fill,
                length-replicate (rows - g.rows) (blank_row cols),
                count,
                ltb→lt _ _ more,
              ),
              All-append _ widened fill wide (
                  All-replicate _ (rows - g.rows) (blank_row cols)
                    (length-replicate cols default_cell)),
            )
      | inr not_more ↦ elim (Bool-cases (ltb rows g.rows)) [
        | inl fewer ↦
            rw (not_more, fewer, resize)
              (length-take_le rows widened (ground (arith, count)), All-take _ rows widened wide)
        | inr same ↦ rw (not_more, same, resize) (ground (arith, count), wide)
      ]
    ]

-- A change of the size to at least one row and one column leaves a well-formed grid of exactly
-- that size, and loses no line of the scrollback.
pub resize-IsWellFormed :
    (g : Grid) (rows cols : ℕ)
    → IsWellFormed g
    → 0 < rows
    → 0 < cols
    → IsWellFormed (resize g rows cols)
      × ((resize g rows cols).rows ≡ rows)
      × ((resize g rows cols).cols ≡ cols)
      × ((resize g rows cols).scrollback ≡ g.scrollback)
unfolding resize
resize-IsWellFormed g rows cols v r c = (
  record {
    rows_pos = r;
    cols_pos = c;
    screen = resize-IsScreen g rows cols v.screen;
    row_in = ground arith;
    col_in = ground arith;
    kept = v.kept;
  },
  refl,
  refl,
  refl,
)
