-- ===== src/Ejson2csv.antt =====
-- internal/ejson2csv/ejson2csv.go: Process, between the decoding of the JSON and the CSV writer. The
-- input is an array of objects with an array of objects under "Diagnostics", if that key has an
-- array at all; other input makes a type assertion panic and is left out.
pub mod Lines
mod Tests
use pkgsite_metrics.Prelude.{
  ℕ, zero, suc, ◌-◌, Bool, true, false, not, ◌&&◌, ◌||◌, List, [], ◌∷◌, ◌++◌, Option, none, some,
  Text, text, is_empty, length, replicate, if◌then◌else◌,
}

-- The value of a key: a string, or nothing that sliceOf or the string assertions keep.
abbrev pub Value : Type 0
Value = Option Text

pub record Diagnostic : Type 0 where
  pub error : Value
  pub message : Value
  pub position : Value

pub record Module : Type 0 where
  pub module_path : Value
  pub diagnostics : Option (List Diagnostic)

pub record Flags : Type 0 where
  pub errors : Bool
  pub others : Bool
  pub all : Bool
  pub one : Bool

abbrev pub Line : Type 0
Line = List Text

-- The arguments of sliceOf that it keeps, up to five columns.
abbrev kept : List Value → Line
kept [] = []
kept (none ∷ vs) = kept vs
kept (some t ∷ vs) = t ∷ kept vs

unfoldable pub slice_of : List Value → Line
slice_of vs = let line = kept vs in line ++ replicate (5 - length line) []

-- A value that is a string and not empty.
abbrev pub present : Value → Bool
present none = false
present (some t) = not (is_empty t)

module _ (print : ℕ → Text) (flags : Flags) where
  abbrev pub diagnostic_line : Module → ℕ → Value → ℕ → Value → Line
  diagnostic_line m i text_value j position =
      slice_of (m.module_path ∷ some (print i) ∷ text_value ∷ some (print j) ∷ position ∷ [])

  abbrev pub line_if : Bool → Line → List Line
  line_if true line = line ∷ []
  line_if false line = []

  unfoldable pub error_lines : Module → ℕ → ℕ → Diagnostic → List Line
  error_lines m i j d =
      line_if (present d.error && (flags.errors || flags.all))
        (diagnostic_line m i d.error j d.position)

  unfoldable pub message_lines : Module → ℕ → ℕ → Diagnostic → List Line
  message_lines m i j d =
      line_if (present d.message && ((not flags.errors && not flags.others) || flags.all))
        (diagnostic_line m i d.message j d.position)

  -- Lines that end the module under the flag `one`, and what follows otherwise.
  abbrev pub stop_or : List Line → List Line × Bool → List Line × Bool
  stop_or [] next = next
  stop_or (l ∷ ls) (rest, saw) = if flags.one then (l ∷ ls, true) else ((l ∷ ls) ++ rest, saw)

  abbrev pub or_saw : Bool → List Line × Bool → List Line × Bool
  or_saw b (ls, saw) = (ls, b || saw)

  -- The loop over the diagnostics: its lines, and sawDiagnostic at its end.
  unfoldable pub diagnostics_lines : Module → ℕ → ℕ → List Diagnostic → List Line × Bool
  diagnostics_lines m i j [] = ([], false)
  diagnostics_lines m i j (d ∷ ds) =
      let rest = diagnostics_lines m i (suc j) ds in
      stop_or (error_lines m i j d)
        (stop_or (message_lines m i j d) (or_saw (present d.error || present d.message) rest))

  unfoldable pub other_lines : Module → ℕ → List Line
  other_lines m i =
      line_if (flags.others || flags.all) (slice_of (m.module_path ∷ some (print i) ∷ []))

  abbrev pub unless_seen : Module → ℕ → List Line × Bool → List Line
  unless_seen m i (ls, true) = ls
  unless_seen m i (ls, false) = ls ++ other_lines m i

  abbrev pub loop_lines : Module → ℕ → Option (List Diagnostic) → List Line × Bool
  loop_lines m i none = ([], false)
  loop_lines m i (some ds) = diagnostics_lines m i 0 ds

  unfoldable pub module_lines : Module → ℕ → List Line
  module_lines m i = unless_seen m i (loop_lines m i m.diagnostics)

  unfoldable pub all_lines : List Module → ℕ → List Line
  all_lines [] i = []
  all_lines (m ∷ ms) i = module_lines m i ++ all_lines ms (suc i)

  abbrev header : Line
  header = slice_of (
      some (text "ModulePath")
      ∷ some (text "mpIndex")
      ∷ some (text "Message/error")
      ∷ some (text "meIndex")
      ∷ some (text "Position")
      ∷ [])

  unfoldable pub process : List Module → List Line
  process ms = header ∷ all_lines ms 0
