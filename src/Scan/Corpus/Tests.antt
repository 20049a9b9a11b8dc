-- ===== src/Scan/Corpus/Tests.antt =====
-- internal/scan/parse.go: a corpus file of two modules.
use pkgsite_metrics.Prelude.{
  ◌≡◌, refl, ◌+◌, ◌-◌, List, [], ◌∷◌, map, filter_by, none, Text, text, has_prefix,
}
use pkgsite_metrics.Prelude.Int.{ℤ, pos, negsuc}
use pkgsite_metrics.Derrors.{Result, ok, err, plain}
use pkgsite_metrics.Worker.Analysis.{ModuleSpec}
use pkgsite_metrics.Worker.Analysis.Running.{is_space, fields, fields_from}
use pkgsite_metrics.Sandbox.Trimming.{trim_space, trim_left, trim_right}
use pkgsite_metrics.Ejobs.Start.{has_space}
use pkgsite_metrics.Scan.Corpus.{
  spec, parse_corpus_file, read_file_lines, kept_lines, is_ignored, parse_lines, parse_line,
  at_least,
}
use pkgsite_metrics.Scan.Corpus.RoundTrip.{
  AreWritable, line_of, is_imported, parse_corpus_file-lines,
}

-- Counts of one digit.
abbrev print : ℤ → Text
print n = elim n [ pos k ↦ (b'0' + k) ∷ [] | negsuc k ↦ [] ]

abbrev atoi : Text → Result ℤ
atoi (c ∷ []) = ok (pos (c - b'0'))
atoi _ = err (plain (text "invalid syntax"))

abbrev modules : List ModuleSpec
modules =
    spec (text "a.com/m") (text "v1.0.0") (pos 7)
    ∷ spec (text "b.com/n") (text "latest") (pos 2)
    ∷ []

modules-AreWritable : AreWritable atoi print modules
unfolding has_space is_space has_prefix
modules-AreWritable = (
  record {
    path_word = record { solid = refl; whole = refl };
    no_comment = refl;
    version_word = record { solid = refl; whole = refl };
    count_word = record { solid = refl; whole = refl };
    printed = refl;
  },
  (
    record {
      path_word = record { solid = refl; whole = refl };
      no_comment = refl;
      version_word = record { solid = refl; whole = refl };
      count_word = record { solid = refl; whole = refl };
      printed = refl;
    },
    tt,
  ),
)

parse_corpus_file-lines_example :
    parse_corpus_file atoi (ok (map (line_of atoi print) modules, none)) (pos 5)
    ≡ ok (filter_by (is_imported atoi print (pos 5)) modules)
parse_corpus_file-lines_example =
    parse_corpus_file-lines atoi print (pos 5) modules modules-AreWritable

-- A line without a version, between a comment and a blank line.
no_version :
    parse_corpus_file atoi
      (ok (text "# modules" ∷ text " c.com  3 " ∷ text "  " ∷ [], none))
      (pos 0)
    ≡ ok (spec (text "c.com") (text "latest") (pos 3) ∷ [])
unfolding parse_corpus_file read_file_lines kept_lines is_ignored parse_lines parse_line at_least
    fields fields_from is_space trim_space trim_left trim_right has_prefix
no_version = refl
