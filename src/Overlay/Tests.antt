-- ===== src/Overlay/Tests.antt =====
-- Two small trees, with a line diff that takes out all old lines and puts in all new ones.
use cuartel.Common.{
  false, str_eq, eq_iff, ◌≢◌, ◌≡◌, ◌↔◌, refl, sym, ap, ◌∙◌, subst, none, some, List, [], ◌∷◌, ◌++◌,
  map, length, arith, Option, String,
}
use cuartel.Common.Sort.{IsSorted, In}
use cuartel.Review.Defs.{DiffLine, Text, lines, DiffHunk, apply_hunks}
use cuartel.Review.Plan.{DiffKind, FileDiff, accept_all, reject_all}
use cuartel.Review.Text.{text_of, lines-text_of}
use cuartel.Overlay.{Edit, text_hunks, build_file_diff, diff_trees, Tree}
use cuartel.Overlay.Similar.{
  insert, delete, Change, DiffOp, old_values, new_values, Covers, ended, LineDiff,
}
use cuartel.Overlay.Unified.{codes, line, to_unified_string}
use cuartel.Overlay.Utf8.{from_utf8}
use cuartel.Overlay.Accepted.{Plain-Clean, apply_hunks-text_hunks}
use cuartel.Overlay.Trees.{Differs}
use cuartel.Overlay.Reports.{by_path, diff_trees-Differs}

abbrev deleted_lines : List Text → List Change
deleted_lines = map (λ l. record { tag = delete; value = ended l })

abbrev inserted_lines : List Text → List Change
inserted_lines = map (λ l. record { tag = insert; value = ended l })

abbrev replacement : List Text → List Text → DiffOp
replacement os ns = record {
  old_lo = 0;
  old_hi = length os;
  new_lo = 0;
  new_hi = length ns;
  changes = deleted_lines os ++ inserted_lines ns;
}

inserted_old : (ns : List Text) → old_values (inserted_lines ns) ≡ []
inserted_old [] = refl
inserted_old (n ∷ ns) = inserted_old ns

inserted_new : (ns : List Text) → new_values (inserted_lines ns) ≡ map ended ns
inserted_new [] = refl
inserted_new (n ∷ ns) = ap (λ r. ended n ∷ r) (inserted_new ns)

replaced_old :
    (os ns : List Text) → old_values (deleted_lines os ++ inserted_lines ns) ≡ map ended os
replaced_old [] ns = inserted_old ns
replaced_old (o ∷ os) ns = ap (λ r. ended o ∷ r) (replaced_old os ns)

replaced_new :
    (os ns : List Text) → new_values (deleted_lines os ++ inserted_lines ns) ≡ map ended ns
replaced_new [] ns = inserted_new ns
replaced_new (o ∷ os) ns = replaced_new os ns

append_none : {A : Type 0} (xs : List A) → xs ++ [] ≡ xs
append_none [] = refl
append_none (x ∷ xs) = ap (λ r. x ∷ r) (append_none xs)

length-ended : (ls : List Text) → length (map ended ls) ≡ length ls
length-ended [] = refl
length-ended (l ∷ ls) = omega (arith, length-ended ls)

replacement-Covers :
    (os ns : List Text) → Covers 0 0 (map ended os) (map ended ns) ((replacement os ns ∷ []) ∷ [])
replacement-Covers os ns =
    let changes = deleted_lines os ++ inserted_lines ns in
    let all : changes ++ [] ≡ changes = append_none changes in
    let old : old_values (changes ++ []) ≡ map ended os = ap old_values all ∙ replaced_old os ns in
    let new : new_values (changes ++ []) ≡ map ended ns = ap new_values all ∙ replaced_new os ns in
    (
      [],
      [],
      [],
      sym (append_none _ ∙ old),
      sym (append_none _ ∙ new),
      (
        refl,
        omega (arith, ap length (replaced_old os ns), length-ended os),
        refl,
        omega (arith, ap length (replaced_new os ns), length-ended ns),
        tt,
      ),
      (λ none_there. (refl, refl)),
      refl,
    )

abbrev replace_all : LineDiff
replace_all = record {
  grouped_ops = λ old new. (replacement (lines old) (lines new) ∷ []) ∷ [];
  ordered = λ old new. ((omega arith, omega arith), tt);
  covers = λ os ns po pn.
      subst
        (λ ls.
          Covers 0 0 (map ended os) (map ended ns)
            ((replacement ls (lines (text_of ns)) ∷ []) ∷ []))
        (sym (lines-text_of os (Plain-Clean os po)))
        (subst (λ ls. Covers 0 0 (map ended os) (map ended ns) ((replacement os ls ∷ []) ∷ []))
          (sym (lines-text_of ns (Plain-Clean ns pn))) (replacement-Covers os ns));
}

-- `a`, `b` and `c` on lines of their own.
abbrev old_lines : List Text
old_lines = (97 ∷ []) ∷ (98 ∷ []) ∷ []

abbrev later_lines : List Text
later_lines = (97 ∷ []) ∷ (99 ∷ []) ∷ []

apply_hunks-text_hunks_example :
    (hs : List DiffHunk) × (text_hunks replace_all (text_of old_lines) (text_of later_lines)
      ≡ some hs)
    × (apply_hunks (text_of old_lines) hs (accept_all 0 (length hs)).accepted_hunks
        ≡ some (text_of later_lines))
    × (apply_hunks (text_of old_lines) hs (reject_all 0).accepted_hunks ≡ some (text_of old_lines))
apply_hunks-text_hunks_example =
    apply_hunks-text_hunks replace_all 0 old_lines later_lines ((((refl, tt)), (((refl, tt)), tt)))
      ((((refl, tt)), (((refl, tt)), tt))) refl refl

abbrev base_tree : Tree
base_tree = ("a/b", 97 ∷ 10 ∷ []) ∷ ("gone", 98 ∷ 10 ∷ []) ∷ []

abbrev overlay_tree : Tree
overlay_tree = ("a-b", 0xFF ∷ []) ∷ ("a/b", 99 ∷ 10 ∷ []) ∷ []

apart : (s t : String) → str_eq s t ≡ false → s ≢ t
apart s t h e = ground (arith, eq_iff s t)

diff_trees-Differs_example :
    (out : List FileDiff) × (diff_trees replace_all base_tree overlay_tree ≡ some out)
    × IsSorted by_path out
    × ((f : FileDiff)
        → In f out ↔ (
            (e : Edit) × Differs base_tree overlay_tree e
            × (build_file_diff replace_all e ≡ some f)))
diff_trees-Differs_example =
    diff_trees-Differs replace_all base_tree overlay_tree ((apart "gone" "a/b" refl, tt), (tt, tt))
      ((apart "a/b" "a-b" refl, tt), (tt, tt))

-- Four bytes for one character, and a surrogate.
four_bytes : from_utf8 (0xF0 ∷ 0x9F ∷ 0x98 ∷ 0x80 ∷ []) ≡ some (0x1F600 ∷ [])
unfolding from_utf8
four_bytes = refl

no_surrogate : from_utf8 (0xED ∷ 0xA0 ∷ 0x80 ∷ []) ≡ none
unfolding from_utf8
no_surrogate = refl

abbrev names : Option (List FileDiff) → List String
names none = []
names (some fs) = map (λ f. f.path) fs

-- The separator stands before the dash.
in_order : names (diff_trees replace_all base_tree overlay_tree) ≡ "a/b" ∷ "a-b" ∷ "gone" ∷ []
unfolding diff_trees lines
in_order = refl

abbrev one_line : DiffHunk
one_line = record {
  old_start = 0;
  old_count = 0;
  new_start = 1;
  new_count = 1;
  lines = DiffLine.added (codes "hi") ∷ [];
}

abbrev new_file : FileDiff
new_file = record { path = "new.txt"; kind = DiffKind.added; binary = false; hunks = one_line ∷ [] }

new_file_rendered :
    to_unified_string new_file
    ≡ line (codes "--- /dev/null")
      ++ line (codes "+++ b/new.txt")
      ++ line (codes "@@ -0,0 +1,1 @@")
      ++ line (codes "+hi")
unfolding to_unified_string
new_file_rendered = refl
