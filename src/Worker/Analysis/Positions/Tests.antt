-- ===== src/Worker/Analysis/Positions/Tests.antt =====
-- Positions and lines of a file.
use pkgsite_metrics.Prelude.{◌≡◌, List, [], ◌∷◌, Text, text, take, drop, none}
use pkgsite_metrics.Prelude.Int.{pos}
use pkgsite_metrics.Derrors.{ok}
use pkgsite_metrics.Worker.Analysis.Positions.{read_source, join_lines}
use pkgsite_metrics.Worker.Analysis.Positions.Lines.{read_source-window}

abbrev lines : List Text
lines = text "package p" ∷ text "" ∷ text "func F() {" ∷ text "}" ∷ []

read_source-window_example :
    read_source (ok (lines, none)) (pos 3) 1 ≡ ok (join_lines (drop 1 (take 4 lines)))
read_source-window_example = read_source-window 3 1 lines
