-- ===== src/Ejson2csv/Lines.antt =====
-- internal/ejson2csv/ejson2csv.go: how many lines a module has.
use pkgsite_metrics.Prelude.{
  ℕ, suc, ◌+◌, ◌≡◌, ◌≤◌, refl, Bool, true, false, List, [], ◌∷◌, Option, none, some, Text, length,
  length-append, arith,
}
use pkgsite_metrics.Ejson2csv.{
  Diagnostic, Module, Flags, Line, line_if, error_lines, message_lines, stop_or, or_saw,
  diagnostics_lines, other_lines, unless_seen, loop_lines, module_lines, all_lines, process,
}

module _ (print : ℕ → Text) (flags : Flags) where
  line_if-length : (b : Bool) (l : Line) → length (line_if print flags b l) ≤ 1
  line_if-length true l = omega arith
  line_if-length false l = omega arith

  -- At most one line, and none unless a diagnostic was seen.
  IsShort : List Line × Bool → Type 0
  IsShort (ls, saw) = (length ls ≤ 1) × (saw ≡ false → ls ≡ [])

  stop_or-IsShort :
      (ls : List Line) (next : List Line × Bool)
      → flags.one ≡ true
      → length ls ≤ 1
      → IsShort next
      → IsShort (stop_or print flags ls next)
  unfolding IsShort
  stop_or-IsShort [] next one h short = short
  stop_or-IsShort (l ∷ ls) (rest, saw) one h short = rw one (h, λ e. cc)

  or_saw-IsShort :
      (b : Bool) (next : List Line × Bool) → IsShort next → IsShort (or_saw print flags b next)
  unfolding IsShort
  or_saw-IsShort true (ls, saw) h = (h.0, λ e. cc)
  or_saw-IsShort false (ls, saw) h = h

  diagnostics-IsShort :
      (m : Module) (i j : ℕ) (ds : List Diagnostic)
      → flags.one ≡ true
      → IsShort (diagnostics_lines print flags m i j ds)
  unfolding diagnostics_lines IsShort error_lines message_lines
  diagnostics-IsShort m i j [] one = (omega arith, λ e. refl)
  diagnostics-IsShort m i j (d ∷ ds) one = stop_or-IsShort _ _ one (line_if-length _ _) (
      stop_or-IsShort _ _ one (line_if-length _ _)
        (or_saw-IsShort _ _ (diagnostics-IsShort m i (suc j) ds one)))

  unless_seen-length :
      (m : Module) (i : ℕ) (r : List Line × Bool)
      → IsShort r
      → length (unless_seen print flags m i r) ≤ 1
  unfolding IsShort other_lines
  unless_seen-length m i (ls, true) h = h.0
  unless_seen-length m i (ls, false) h = rw (h.1 refl) (line_if-length _ _)

  loop-IsShort :
      (m : Module) (i : ℕ) (o : Option (List Diagnostic))
      → flags.one ≡ true
      → IsShort (loop_lines print flags m i o)
  unfolding IsShort
  loop-IsShort m i none one = (omega arith, λ e. refl)
  loop-IsShort m i (some ds) one = diagnostics-IsShort m i 0 ds one

  module_lines-length :
      (m : Module) (i : ℕ) → flags.one ≡ true → length (module_lines print flags m i) ≤ 1
  unfolding module_lines
  module_lines-length m i one = unless_seen-length m i _ (loop-IsShort m i m.diagnostics one)

  all_lines-length :
      (ms : List Module) (i : ℕ)
      → flags.one ≡ true
      → length (all_lines print flags ms i) ≤ length ms
  unfolding all_lines
  all_lines-length [] i one = omega arith
  all_lines-length (m ∷ ms) i one = omega (
    arith,
    length-append (module_lines print flags m i) (all_lines print flags ms (suc i)),
    module_lines-length m i one,
    all_lines-length ms (suc i) one,
  )

  -- With the flag `one`, the output has no more lines than there are modules, beside its header: at
  -- most one for each module.
  pub process-length :
      (ms : List Module)
      → flags.one ≡ true
      → (length (process print flags ms) ≤ 1 + length ms)
        × ((m : Module) (i : ℕ) → length (module_lines print flags m i) ≤ 1)
  unfolding process
  process-length ms one =
      (omega (arith, all_lines-length ms 0 one), λ m i. module_lines-length m i one)
