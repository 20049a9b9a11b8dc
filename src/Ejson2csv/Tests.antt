-- ===== src/Ejson2csv/Tests.antt =====
-- internal/ejson2csv/ejson2csv.go: two modules, one with an error and a message.
use pkgsite_metrics.Prelude.{
  ℕ, ◌+◌, ◌≡◌, ◌≤◌, refl, true, false, List, [], ◌∷◌, none, some, Text, text, length,
}
use pkgsite_metrics.Ejson2csv.{
  Module, Flags, module_lines, process, all_lines, diagnostics_lines, error_lines, message_lines,
  other_lines, slice_of,
}
use pkgsite_metrics.Ejson2csv.Lines.{process-length}

abbrev digit : ℕ → Text
digit n = (b'0' + n) ∷ []

abbrev modules : List Module
modules =
    record {
      module_path = some (text "a");
      diagnostics = some (
          record { error = some (text "bad"); message = none; position = none }
          ∷ record { error = none; message = some (text "found"); position = some (text "x.go:1") }
          ∷ record { error = none; message = some (text "more"); position = none }
          ∷ []);
    }
    ∷ record { module_path = some (text "b"); diagnostics = none }
    ∷ []

abbrev first_only : Flags
first_only = record { errors = false; others = false; all = false; one = true }

first_lines :
    all_lines digit first_only modules 0
    ≡ (text "a" ∷ text "0" ∷ text "found" ∷ text "1" ∷ text "x.go:1" ∷ []) ∷ []
unfolding all_lines module_lines diagnostics_lines error_lines message_lines other_lines slice_of
first_lines = refl

process-length_example :
    (length (process digit first_only modules) ≤ 1 + length modules)
    × ((m : Module) (i : ℕ) → length (module_lines digit first_only m i) ≤ 1)
process-length_example = process-length digit first_only modules refl
