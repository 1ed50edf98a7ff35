-- ===== src/Overlay/Unified.antt =====
-- `to_unified_string` of crates/cuartel-core/src/overlay.rs.
use Prim.Native.String.{[] as nil, ◌∷◌ as cons}
use Prim.Native.Char.{code}
use cuartel.Common.{String, List, [], ◌∷◌, ◌++◌, if◌then◌else◌}
use cuartel.Review.Defs.{Text, DiffLine, DiffHunk}
use cuartel.Review.Plan.{DiffKind, FileDiff}
use cuartel.Cron.Chars.{to_string}

-- The code points of a text of the program.
abbrev pub codes : String → Text
codes nil = []
codes (cons c s) = code c ∷ codes s

-- `writeln!`
abbrev pub line : Text → Text
line t = t ++ 10 ∷ []

abbrev pub old_label : DiffKind → Text → Text
old_label DiffKind.added path = codes "/dev/null"
old_label DiffKind.modified path = codes "a/" ++ path
old_label DiffKind.deleted path = codes "a/" ++ path

abbrev pub new_label : DiffKind → Text → Text
new_label DiffKind.added path = codes "b/" ++ path
new_label DiffKind.modified path = codes "b/" ++ path
new_label DiffKind.deleted path = codes "/dev/null"

unfoldable pub unified_lines : List DiffLine → Text
unified_lines [] = []
unified_lines (DiffLine.context s ∷ ls) = line (32 ∷ s) ++ unified_lines ls
unified_lines (DiffLine.added s ∷ ls) = line (43 ∷ s) ++ unified_lines ls
unified_lines (DiffLine.removed s ∷ ls) = line (45 ∷ s) ++ unified_lines ls

unfoldable pub hunk_header : DiffHunk → Text
unfolding to_string
hunk_header h =
    codes "@@ -"
    ++ to_string h.old_start
    ++ codes ","
    ++ to_string h.old_count
    ++ codes " +"
    ++ to_string h.new_start
    ++ codes ","
    ++ to_string h.new_count
    ++ codes " @@"

unfoldable pub unified_hunks : List DiffHunk → Text
unfolding hunk_header unified_lines
unified_hunks [] = []
unified_hunks (h ∷ hs) = line (hunk_header h) ++ unified_lines h.lines ++ unified_hunks hs

unfoldable pub to_unified_string : FileDiff → Text
unfolding unified_hunks
to_unified_string diff =
    let path = codes diff.path in
    line (codes "--- " ++ old_label diff.kind path)
    ++ line (codes "+++ " ++ new_label diff.kind path)
    ++ (if diff.binary then line (codes "Binary files differ") else unified_hunks diff.hunks)
