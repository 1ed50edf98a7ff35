-- ===== src/Overlay/Reports.antt =====
-- The reports that `diff_trees` builds on the files that differ.
use Prim.Native.String.{[] as nil, ◌∷◌ as cons}
use cuartel.Common.{
  ◌≡◌, ◌↔◌, refl, sym, ap, ◌∙◌, inl, inr, Bool, true, false, some, ◌&&◌, List, [], ◌∷◌, ◌++◌,
  String, All, arith, leb, Option-cases,
}
use cuartel.Common.Dict.{Distinct}
use cuartel.Common.Sort.{sort_by, IsSorted, In, In-sort_by, sort_by-In, sort_by-IsSorted}
use cuartel.Review.Defs.{DiffHunk}
use cuartel.Review.Plan.{FileDiff}
use cuartel.Overlay.{
  Tree, path_lt, Edit, overlay_edits, base_edits, hunk_of, group_hunks, text_hunks, build_file_diff,
  build_all, diff_trees,
}
use cuartel.Overlay.Similar.{LineDiff, DiffOp, last_op, Ordered}
use cuartel.Overlay.Utf8.{from_utf8}
use cuartel.Overlay.Trees.{Differs, edits-Differs}

path_lt_asym : (s t : String) → path_lt s t ≡ true → path_lt t s ≡ false
path_lt_asym s nil h = absurd (cc)
path_lt_asym nil (cons d t) h = refl
path_lt_asym (cons c s) (cons d t) h = ground (arith, path_lt_asym s t)

hunk_of-some :
    (op : DiffOp) (ops : List DiffOp)
    → Ordered (op ∷ ops)
    → (h : DiffHunk) × (hunk_of op ops ≡ some h)
unfolding hunk_of
hunk_of-some op ops (old, new) = elim (Option-cases (hunk_of op ops)) [
  | inl e ↦
      let forward : (leb op.old_lo (last_op op ops).old_hi && leb op.new_lo (last_op op ops).new_hi)
          ≡ true =
        ground arith in
      absurd (cc (rw (forward, hunk_of) at e))
  | inr r ↦ r
]

group_hunks-some :
    (gs : List (List DiffOp)) → All Ordered gs → (hs : List DiffHunk) × (group_hunks gs ≡ some hs)
unfolding group_hunks
group_hunks-some [] h = ([], refl)
group_hunks-some ([] ∷ gs) (h, hs) = group_hunks-some gs hs
group_hunks-some ((op ∷ ops) ∷ gs) (h, hs) =
    let (first, made) = hunk_of-some op ops h in
    let (rest, e) = group_hunks-some gs hs in (first ∷ rest, rw (made, e, group_hunks) refl)

abbrev pub by_path : FileDiff → FileDiff → Bool
by_path a b = path_lt a.path b.path

module _ (d : LineDiff) where
  abbrev binary_diff : Edit → FileDiff
  binary_diff e = record { path = e.path; kind = e.kind; binary = true; hunks = [] }

  -- Building a report never panics.
  build_file_diff-some : (e : Edit) → (f : FileDiff) × (build_file_diff d e ≡ some f)
  unfolding build_file_diff text_hunks
  build_file_diff-some e = elim (Option-cases (from_utf8 e.old)) [
    | inl binary ↦ (binary_diff e, rw (binary, build_file_diff) refl)
    | inr (o, old) ↦ elim (Option-cases (from_utf8 e.new)) [
      | inl binary ↦ (binary_diff e, rw (old, binary, build_file_diff) refl)
      | inr (n, new) ↦
          let (hs, made) = group_hunks-some (d.grouped_ops o n) (d.ordered o n) in
          (
            record { path = e.path; kind = e.kind; binary = false; hunks = hs },
            rw (old, new, made, build_file_diff) refl,
          )
    ]
  ]

  -- What is built from some edits.
  abbrev pub Built : List Edit → FileDiff → Type 0
  Built es f = (e : Edit) × In e es × (build_file_diff d e ≡ some f)

  build_all-Built :
      (es : List Edit)
      → (out : List FileDiff) × (build_all d es ≡ some out)
        × ((f : FileDiff) → In f out ↔ Built es f)
  unfolding build_all
  build_all-Built [] = ([], refl, λ f. (λ i. elim i [ ], λ (e, i, b). elim i [ ]))
  build_all-Built (e ∷ es) =
      let (f, made) = build_file_diff-some e in
      let (out, rest, same) = build_all-Built es in
      (
        f ∷ out,
        rw (made, rest, build_all) refl,
        λ g. (
          λ i. elim i [
            | inl first ↦ (e, inl refl, made ∙ ap some (sym first))
            | inr later ↦ let (e', i', b) = (same g).0 later in (e', inr i', b)
          ],
          λ (e', i', b). elim i' [
            | inl first ↦ inl (cc)
            | inr later ↦ inr ((same g).1 (e', later, b))
          ],
        ),
      )

  -- For two trees in which no path stands twice, `diff_trees` ends without a panic; its reports
  -- stand in the order of their paths, and they are exactly those that are built of the files that
  -- are only in the overlay, only in the base, or in both with another content.
  pub diff_trees-Differs :
      (base overlay : Tree)
      → Distinct base
      → Distinct overlay
      → (out : List FileDiff) × (diff_trees d base overlay ≡ some out)
        × IsSorted by_path out
        × ((f : FileDiff)
            → In f out ↔ ((e : Edit) × Differs base overlay e × (build_file_diff d e ≡ some f)))
  unfolding diff_trees
  diff_trees-Differs base overlay db ov =
      let (out, made, same) =
        build_all-Built (overlay_edits base overlay ++ base_edits overlay base) in
      (
        sort_by by_path out,
        rw (made, diff_trees) refl,
        sort_by-IsSorted by_path (λ a b. path_lt_asym a.path b.path) out,
        λ f. (
          λ i.
              let (e, member, b) = (same f).0 (sort_by-In by_path f out i) in
              (e, (edits-Differs base overlay e db ov).0 member, b),
          λ (e, differs, b).
              In-sort_by by_path f out
                ((same f).1 (e, (edits-Differs base overlay e db ov).1 differs, b)),
        ),
      )
