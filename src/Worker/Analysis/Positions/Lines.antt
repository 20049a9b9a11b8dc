-- ===== src/Worker/Analysis/Positions/Lines.antt =====
-- internal/worker/analysis.go: the lines that readSource gives, and the parts of a position.
use pkgsite_metrics.Prelude.{
  ℕ, zero, suc, ◌+◌, ◌-◌, ◌*◌, ◌≡◌, refl, ap, sym, ◌∙◌, inl, inr, Bool, true, false, List, [], ◌∷◌,
  ◌++◌, none, some, Text, take, drop, take-nil, drop-nil, ltb, arith, Bool-cases, if◌then◌else◌,
  count_byte, ◌==◌, ==_iff, Option-cases, append_assoc,
}
use pkgsite_metrics.Prelude.Int.{ℤ, pos}
use pkgsite_metrics.Derrors.{ok, ◌>>=◌}
use pkgsite_metrics.Worker.Analysis.Positions.{
  cut_last, is_digit, digits_value, atoi, unsigned, position_parts, parse_position, is_above,
  is_below, scan_lines, scanned, colon_or, number, join_lines, read_source,
}

scan_lines-window :
    (n line n_context : ℕ) (ls : List Text)
    → (scan_lines n (pos line) n_context ls).0
      ≡ drop ((line - n_context - 1) - n) (take ((line + n_context) - n) ls)
unfolding scan_lines is_above is_below
scan_lines-window n line n_context [] = rw (take-nil, drop-nil) refl
scan_lines-window n line n_context (l ∷ ls) =
    let rest = scan_lines-window (suc n) line n_context ls in
    elim (Bool-cases (ltb (suc n + n_context) line)) [
      | inl above ↦
          let first : (line - n_context - 1) - n ≡ suc ((line - n_context - 1) - suc n) =
            ground arith in
          let last : (line + n_context) - n ≡ suc ((line + n_context) - suc n) = ground arith in
          rw (above, first, last, if◌then◌else◌) rest
      | inr not_above ↦ elim (Bool-cases (ltb (line + n_context) (suc n))) [
        | inl below ↦
            let last : (line + n_context) - n ≡ zero = ground arith in
            rw (not_above, below, last, if◌then◌else◌, drop-nil) refl
        | inr not_below ↦
            let first : (line - n_context - 1) - n ≡ zero = ground arith in
            let next : (line - n_context - 1) - suc n ≡ zero = ground arith in
            let last : (line + n_context) - n ≡ suc ((line + n_context) - suc n) = ground arith in
            rw (not_above, not_below, first, last, if◌then◌else◌)
              (ap (◌∷◌ l) (rest ∙ (rw next refl)))
      ]
    ]

scanned-none : (r : List Text × Bool) → scanned r none ≡ ok (join_lines r.0)
scanned-none (lines, true) = refl
scanned-none (lines, false) = refl

-- readSource gives the lines from `n_context` before the line up to `n_context` after it, and
-- those of them alone that the file has, joined by newlines, if the scanner meets no error.
pub read_source-window :
    (line n_context : ℕ) (ls : List Text)
    → read_source (ok (ls, none)) (pos line) n_context
      ≡ ok (join_lines (drop (line - n_context - 1) (take (line + n_context) ls)))
unfolding read_source
read_source-window line n_context ls =
    let first : line - n_context - 1 - 0 ≡ line - n_context - 1 = omega arith in
    let last : line + n_context - 0 ≡ line + n_context = omega arith in
    rw (scanned-none, scan_lines-window 0 line n_context ls, first, last) refl

cut_last-none : (b : ℕ) (s : Text) → count_byte b s ≡ 0 → cut_last b s ≡ none
unfolding cut_last count_byte
cut_last-none b [] h = refl
cut_last-none b (c ∷ s) h = ground (arith, cut_last-none b s)

cut_last-append :
    (b : ℕ) (l r : Text) → count_byte b r ≡ 0 → cut_last b (l ++ (b ∷ r)) ≡ some (l, r)
unfolding cut_last
cut_last-append b [] r h = rw (cut_last-none b r h, (==_iff b b).1 refl) refl
cut_last-append b (c ∷ l) r h = rw (cut_last-append b l r h) refl

digits_value-clean : (n : ℕ) (s : Text) {m : ℕ} → digits_value n s ≡ some m → count_byte b':' s ≡ 0
unfolding digits_value is_digit count_byte
digits_value-clean n [] h = refl
digits_value-clean n (c ∷ s) {m} h =
    let rest : (digits_value (10 * n + (c - b'0')) s ≡ some m) → count_byte b':' s ≡ 0 =
      digits_value-clean (10 * n + (c - b'0')) s in
    ground (arith, rest)

unsigned-clean :
    (negative : Bool) (s : Text) {z : ℤ} → unsigned negative s ≡ some z → count_byte b':' s ≡ 0
unsigned-clean negative [] h = ground (arith, h)
unsigned-clean negative (c ∷ s) h = elim (Option-cases (digits_value 0 (c ∷ s))) [
  | inl e ↦ ground (arith, e, h)
  | inr (m, e) ↦ digits_value-clean 0 (c ∷ s) e
]

atoi-clean : (s : Text) {z : ℤ} → atoi s ≡ some z → count_byte b':' s ≡ 0
unfolding atoi count_byte
atoi-clean [] h = refl
atoi-clean (c ∷ s) {z} h =
    let t : (unsigned true s ≡ some z) → count_byte b':' s ≡ 0 = unsigned-clean true s in
    let f : (unsigned false s ≡ some z) → count_byte b':' s ≡ 0 = unsigned-clean false s in
    let w : (unsigned false (c ∷ s) ≡ some z) → count_byte b':' (c ∷ s) ≡ 0 =
      unsigned-clean false (c ∷ s) in
    elim (Bool-cases (c == b'-')) [
      | inl minus ↦ ground (arith, t)
      | inr no_minus ↦ elim (Bool-cases (c == b'+')) [
        | inl plus ↦ ground (arith, f)
        | inr no_plus ↦ w (rw (no_minus, no_plus, if◌then◌else◌) at h)
      ]
    ]

-- A position that a file name, a line and a column make is taken apart into these, also when the
-- file name has colons itself. The numbers may be any texts that strconv.Atoi reads.
pub parse_position-parts :
    (file line_text col_text : Text) {line col : ℤ}
    → atoi line_text ≡ some line
    → atoi col_text ≡ some col
    → parse_position (file ++ (b':' ∷ (line_text ++ (b':' ∷ col_text)))) ≡ ok (file, line, col)
unfolding parse_position position_parts
parse_position-parts file line_text col_text {line} {col} h k =
    let outer : cut_last b':' ((file ++ (b':' ∷ line_text)) ++ (b':' ∷ col_text))
        ≡ some (file ++ (b':' ∷ line_text), col_text) =
      cut_last-append b':' (file ++ (b':' ∷ line_text)) col_text (atoi-clean col_text k) in
    let inner : cut_last b':' (file ++ (b':' ∷ line_text)) ≡ some (file, line_text) =
      cut_last-append b':' file line_text (atoi-clean line_text h) in
    rw
      (
        sym (append_assoc file (b':' ∷ line_text) (b':' ∷ col_text)),
        outer,
        ◌>>=◌,
        colon_or,
        number,
        k,
        ◌>>=◌,
        inner,
        ◌>>=◌,
        h,
      )
      refl
