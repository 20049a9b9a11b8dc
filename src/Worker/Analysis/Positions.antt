-- ===== src/Worker/Analysis/Positions.antt =====
-- internal/worker/analysis.go: the positions of diagnostics, and the source lines around them.
-- `print` is the printing of %d.
pub mod Lines
mod Tests
use pkgsite_metrics.Prelude.{
  ℕ, zero, suc, ◌+◌, ◌*◌, ◌-◌, Bool, true, false, ◌&&◌, List, [], ◌∷◌, ◌++◌, Option, none, some,
  Text, text, text_eq, is_empty, trim_prefix, cut, ltb, leb, ◌==◌, if◌then◌else◌,
}
use pkgsite_metrics.Prelude.Int.{ℤ, pos, negsuc}
use pkgsite_metrics.Derrors.{◌>>=◌, in_context, Err, Result, ok, err, plain}
use pkgsite_metrics.Worker.Analysis.{Diagnostic}

abbrev modules_dir : Text
modules_dir = text "/tmp/modules"

-- What stands before and after the last occurrence of a byte: strings.LastIndexByte and the slices.
abbrev last_of : ℕ → ℕ → Text → Option (Text × Text) → Option (Text × Text)
last_of b c s (some (l, r)) = some (c ∷ l, r)
last_of b c s none = if c == b then some ([], s) else none

pub cut_last : ℕ → Text → Option (Text × Text)
cut_last b [] = none
cut_last b (c ∷ s) = last_of b c s (cut_last b s)

-- strconv.Atoi on the digits behind a sign.
pub is_digit : ℕ → Bool
is_digit c = leb b'0' c && leb c b'9'

pub digits_value : ℕ → Text → Option ℕ
digits_value n [] = some n
digits_value n (c ∷ s) =
    let rest = digits_value (10 * n + (c - b'0')) s in if is_digit c then rest else none

abbrev in_range : Bool → Option ℕ → Option ℤ
in_range negative none = none
in_range false (some n) = if ltb n 9223372036854775808 then some (pos n) else none
in_range true (some zero) = some (pos 0)
in_range true (some (suc n)) = if ltb n 9223372036854775808 then some (negsuc n) else none

-- The digits of a number: at least one.
abbrev unsigned : Bool → Text → Option ℤ
unsigned negative [] = none
unsigned negative (c ∷ s) = in_range negative (digits_value 0 (c ∷ s))

-- strconv.Atoi, for an int of 64 bits.
pub atoi : Text → Option ℤ
atoi [] = none
atoi (c ∷ s) =
    if c == b'-'
    then unsigned true s
    else if c == b'+'
    then unsigned false s
    else unsigned false (c ∷ s)

abbrev colon_or : Text → Option (Text × Text) → Result (Text × Text)
colon_or e none = err (plain e)
colon_or e (some parts) = ok parts

abbrev number : Text → Result ℤ
number s = elim (atoi s) [ none ↦ err (plain (text "invalid syntax")) | some n ↦ ok n ]

-- parsePosition, below the deferred derrors.Wrap.
pub position_parts : Text → Result (Text × ℤ × ℤ)
position_parts position = do
  (rest, col_text) ← colon_or (text "missing colon") (cut_last b':' position)
  col ← number col_text
  (file, line_text) ← colon_or (text "missing second colon") (cut_last b':' rest)
  line ← number line_text
  ok (file, line, col)

pub parse_position : Text → Result (Text × ℤ × ℤ)
parse_position position = in_context (text "parsePosition") (position_parts position)

pub source_url : (ℤ → Text) → Text → ℤ → Result Text
source_url print position line =
    let rel_pos = trim_prefix position (modules_dir ++ (b'/' ∷ [])) in
    if text_eq rel_pos position
    then err (plain (text "unexpected prefix"))
    else elim (cut b':' rel_pos) [
      | none ↦ err (plain (text "missing colon in position"))
      | some p ↦
          ok (text "https://go-mod-viewer.appspot.com/" ++ (p.0 ++ (text "#L" ++ print line)))
    ]

-- n < line-nContext
pub is_above : ℕ → ℤ → ℕ → Bool
is_above n (pos line) n_context = ltb (n + n_context) line
is_above n (negsuc line) n_context = false

-- n > line+nContext
pub is_below : ℕ → ℤ → ℕ → Bool
is_below n (pos line) n_context = ltb (line + n_context) n
is_below n (negsuc line) n_context = ltb n_context (n + suc line)

-- The loop of readSource, behind line `n`, and whether it has stopped before the end.
pub scan_lines : ℕ → ℤ → ℕ → List Text → List Text × Bool
scan_lines n line n_context [] = ([], false)
scan_lines n line n_context (l ∷ rest) =
    let (lines, stopped) = scan_lines (suc n) line n_context rest in
    if is_above (suc n) line n_context
    then (lines, stopped)
    else if is_below (suc n) line n_context
    then ([], true)
    else (l ∷ lines, stopped)

-- strings.Join(lines, "\n")
pub join_lines : List Text → Text
join_lines [] = []
join_lines (l ∷ []) = l
join_lines (l ∷ m ∷ ls) = l ++ (b'\n' ∷ join_lines (m ∷ ls))

abbrev scanned : List Text × Bool → Option Err → Result Text
scanned (lines, true) e = ok (join_lines lines)
scanned (lines, false) none = ok (join_lines lines)
scanned (lines, false) (some e) = err e

-- readSource, on a file that gives the lines and the error with which the scanner ends.
pub read_source : Result (List Text × Option Err) → ℤ → ℕ → Result Text
read_source (err e) line n_context = in_context (text "readSource") (err e)
read_source (ok (lines, e)) line n_context =
    in_context (text "readSource") (scanned (scan_lines 0 line n_context lines) e)

abbrev with_url : Diagnostic → Result Text → Diagnostic
with_url d (ok url) = record d { position = url }
with_url d (err e) = d

-- One step of the loop of addSource.
pub add_source_to :
    (ℤ → Text) → (Text → Result (List Text × Option Err)) → ℕ → Diagnostic → Result Diagnostic
add_source_to print open_file n_context d = if is_empty d.position then ok d else (do
  (file, line, _) ← parse_position d.position
  source ← in_context (text "reading") (read_source (open_file file) line n_context)
  ok (
      with_url (record d { source = record { string_val = source; valid = true } })
        (source_url print d.position line)))

abbrev first_failed :
    Diagnostic
    → List Diagnostic
    → Result Diagnostic
    → List Diagnostic × Option Err
    → List Diagnostic × Option Err
first_failed d ds (err e) rest = (d ∷ ds, some e)
first_failed d ds (ok d') (ds', e) = (d' ∷ ds', e)

-- addSource writes to the diagnostics that it is given: what they are then, and the error.
pub add_source :
    (ℤ → Text)
    → (Text → Result (List Text × Option Err))
    → ℕ
    → List Diagnostic
    → List Diagnostic × Option Err
add_source print open_file n_context [] = ([], none)
add_source print open_file n_context (d ∷ ds) =
    first_failed d ds (add_source_to print open_file n_context d)
      (add_source print open_file n_context ds)
