-- ===== src/Scan/Corpus.antt =====
-- internal/scan/parse.go: ReadFileLines and ParseCorpusFile. Opening a file gives the lines of a
-- bufio.Scanner and the error at its end; strconv.Atoi is a parameter.
pub mod RoundTrip
mod Tests
use pkgsite_metrics.Prelude.{
  ℕ, Bool, true, false, not, ◌||◌, List, [], ◌∷◌, ◌++◌, Option, none, some, Text, text, is_empty,
  has_prefix, leb, if◌then◌else◌,
}
use pkgsite_metrics.Prelude.Int.{ℤ, pos, negsuc}
use pkgsite_metrics.Derrors.{Err, Result, ok, err, plain, message, in_context, ◌>>=◌}
use pkgsite_metrics.Worker.Analysis.{ModuleSpec}
use pkgsite_metrics.Worker.Analysis.Running.{fields}
use pkgsite_metrics.Sandbox.Trimming.{trim_space}

unfoldable pub is_ignored : Text → Bool
is_ignored line = is_empty line || has_prefix line (text "#")

-- The loop over the scanner.
unfoldable pub kept_lines : List Text → List Text
kept_lines [] = []
kept_lines (s ∷ ss) =
    let line = trim_space s in
    let rest = kept_lines ss in if is_ignored line then rest else line ∷ rest

abbrev scanned : List Text × Option Err → Result (List Text)
scanned (lines, none) = ok (kept_lines lines)
scanned (lines, some e) = err e

unfoldable pub read_file_lines : Result (List Text × Option Err) → Result (List Text)
read_file_lines opened = in_context (text "readFileLines") (opened >>= scanned)

-- The path, the version and the count of a line.
abbrev pub latest : Text
latest = text "latest"

abbrev pub line_parts : Text → List Text → Result (Text × Text × Text)
line_parts line (path ∷ imps ∷ []) = ok (path, latest, imps)
line_parts line (path ∷ vers ∷ imps ∷ []) = ok (path, vers, imps)
line_parts line _ = err (plain (text "wrong number of fields on line " ++ line))

abbrev pub on_line : Text → Result ℤ → Result ℤ
on_line line (ok n) = ok n
on_line line (err e) = err (plain (message e ++ (text " on line " ++ line)))

abbrev pub spec : Text → Text → ℤ → ModuleSpec
spec path vers n = record { module_path = path; version = vers; imported_by = n }

unfoldable pub parse_line : (Text → Result ℤ) → Text → Result ModuleSpec
parse_line atoi line = line_parts line (fields line) >>= λ parts.
    (on_line line (atoi parts.2) >>= λ n. ok (spec parts.0 parts.1 n))

-- n >= minImportedByCount
unfoldable pub at_least : ℤ → ℤ → Bool
at_least (pos m) (pos n) = leb m n
at_least (pos m) (negsuc n) = false
at_least (negsuc m) (pos n) = true
at_least (negsuc m) (negsuc n) = leb n m

-- The specs so far and the loop over the rest of the lines.
unfoldable pub parse_lines : (Text → Result ℤ) → ℤ → List Text → Result (List ModuleSpec)
parse_lines atoi min [] = ok []
parse_lines atoi min (line ∷ lines) =
    let rest = parse_lines atoi min lines in
    parse_line atoi line >>= λ ms.
    (rest >>= λ mss. ok (if at_least min ms.imported_by then ms ∷ mss else mss))

unfoldable pub parse_corpus_file :
    (Text → Result ℤ) → Result (List Text × Option Err) → ℤ → Result (List ModuleSpec)
parse_corpus_file atoi opened min =
    in_context (text "parseCorpusFile") (read_file_lines opened >>= parse_lines atoi min)
