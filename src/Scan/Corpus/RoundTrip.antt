-- ===== src/Scan/Corpus/RoundTrip.antt =====
-- internal/scan/parse.go: reading a corpus file gives back the modules that it lists.
use pkgsite_metrics.Prelude.{
  ◌≡◌, refl, sym, ap, ◌∙◌, subst, inl, inr, Bool, false, List, [], ◌∷◌, ◌++◌, map, filter_by, none,
  Text, text, is_empty, has_prefix, Bool-cases, neither, append_assoc, arith,
}
use pkgsite_metrics.Prelude.Int.{ℤ}
use pkgsite_metrics.Derrors.{Result, ok}
use pkgsite_metrics.Worker.Analysis.{ModuleSpec}
use pkgsite_metrics.Worker.Analysis.Running.{fields, is_space}
use pkgsite_metrics.Sandbox.Trimming.{trim_space, trim_left, trim_right}
use pkgsite_metrics.Ejobs.Start.{has_space, join_spaces}
use pkgsite_metrics.Ejobs.Arguments.{fields-join_spaces}
use pkgsite_metrics.Scan.Corpus.{
  is_ignored, kept_lines, read_file_lines, parse_line, at_least, parse_lines, parse_corpus_file,
}

-- A word of a line: not empty and without white space.
pub record IsWord (w : Text) : Type 0 where
  pub solid : is_empty w ≡ false
  pub whole : has_space w ≡ false

trim_right_word : (w : Text) → has_space w ≡ false → trim_right w ≡ w
unfolding trim_right has_space
trim_right_word [] h = refl
trim_right_word (c ∷ w) h =
    let (solid, rest) = neither (is_space c) _ h in rw (solid, trim_right_word w rest) refl

solid-append : (s w : Text) → is_empty w ≡ false → is_empty (s ++ w) ≡ false
solid-append [] w h = h
solid-append (c ∷ s) w h = refl

-- White space is trimmed up to a last word only.
trim_right-append : (s w : Text) → IsWord w → trim_right (s ++ w) ≡ s ++ w
unfolding trim_right
trim_right-append [] w h = trim_right_word w h.whole
trim_right-append (c ∷ s) w h =
    let rest = trim_right-append s w h in
    let solid = solid-append s w h.solid in
    elim (Bool-cases (is_space c)) [
      | inl blank ↦ rw (rest, blank, solid) refl
      | inr other ↦ rw (rest, other) refl
    ]

trim_space-words : (p s w : Text) → IsWord p → IsWord w → trim_space (p ++ (s ++ w)) ≡ p ++ (s ++ w)
unfolding trim_space trim_left has_space
trim_space-words [] s w hp hw = absurd (ground (arith, hp.solid))
trim_space-words (c ∷ p) s w hp hw =
    let (first, rest) = neither (is_space c) _ hp.whole in
    rw first (
      ap trim_right (sym (append_assoc (c ∷ p) s w))
      ∙ (trim_right-append ((c ∷ p) ++ s) w hw ∙ append_assoc (c ∷ p) s w))

-- A line of three words.
unfoldable pub three : Text → Text → Text → Text
three p v n = join_spaces (p ∷ v ∷ n ∷ [])

three-append : (p v n : Text) → three p v n ≡ p ++ ((b' ' ∷ (v ++ (b' ' ∷ []))) ++ n)
unfolding three join_spaces
three-append p v n = ap (λ z. p ++ (b' ' ∷ z)) (sym (append_assoc v (b' ' ∷ []) n))

trim_space-three : (p v n : Text) → IsWord p → IsWord n → trim_space (three p v n) ≡ three p v n
trim_space-three p v n hp hn =
    subst (λ z. trim_space z ≡ z) (sym (three-append p v n))
      (trim_space-words p (b' ' ∷ (v ++ (b' ' ∷ []))) n hp hn)

three-is_ignored :
    (p v n : Text) → IsWord p → has_prefix p (text "#") ≡ false → is_ignored (three p v n) ≡ false
unfolding three join_spaces is_ignored has_prefix
three-is_ignored [] v n hp h = absurd (ground (arith, hp.solid))
three-is_ignored (c ∷ p) v n hp h = ground (arith, h)

fields-three :
    (p v n : Text) → IsWord p → IsWord v → IsWord n → fields (three p v n) ≡ p ∷ v ∷ n ∷ []
unfolding three
fields-three p v n hp hv hn =
    fields-join_spaces (p ∷ v ∷ n ∷ []) (hp.whole, (hv.whole, (hn.whole, tt)))
    ∙ rw (hp.solid, hv.solid, hn.solid) refl

module _ (atoi : Text → Result ℤ) (print : ℤ → Text) where
  -- The line of a module: its path, its version and its count.
  abbrev pub line_of : ModuleSpec → Text
  line_of ms = three ms.module_path ms.version (print ms.imported_by)

  -- A module that can be written to a corpus file.
  pub record IsWritable (ms : ModuleSpec) : Type 0 where
    pub path_word : IsWord ms.module_path
    pub no_comment : has_prefix ms.module_path (text "#") ≡ false
    pub version_word : IsWord ms.version
    pub count_word : IsWord (print ms.imported_by)
    pub printed : atoi (print ms.imported_by) ≡ ok ms.imported_by

  abbrev pub AreWritable : List ModuleSpec → Type 0
  AreWritable [] = Unit
  AreWritable (ms ∷ mss) = IsWritable ms × AreWritable mss

  parse_line-line_of : (ms : ModuleSpec) → IsWritable ms → parse_line atoi (line_of ms) ≡ ok ms
  unfolding parse_line
  parse_line-line_of ms h =
      rw
        (
          fields-three ms.module_path ms.version (print ms.imported_by) h.path_word h.version_word
              h.count_word,
          h.printed,
        )
        refl

  kept_lines-lines :
      (mss : List ModuleSpec) → AreWritable mss → kept_lines (map line_of mss) ≡ map line_of mss
  unfolding kept_lines
  kept_lines-lines [] h = refl
  kept_lines-lines (ms ∷ mss) h =
      let w = h.0 in
      rw
        (
          trim_space-three ms.module_path ms.version (print ms.imported_by) w.path_word
              w.count_word,
          three-is_ignored ms.module_path ms.version (print ms.imported_by) w.path_word
              w.no_comment,
          kept_lines-lines mss h.1,
        )
        refl

  abbrev pub is_imported : ℤ → ModuleSpec → Bool
  is_imported min ms = at_least min ms.imported_by

  parse_lines-lines :
      (min : ℤ) (mss : List ModuleSpec)
      → AreWritable mss
      → parse_lines atoi min (map line_of mss) ≡ ok (filter_by (is_imported min) mss)
  unfolding parse_lines
  parse_lines-lines min [] h = refl
  parse_lines-lines min (ms ∷ mss) h =
      rw (parse_line-line_of ms h.0, parse_lines-lines min mss h.1) refl

  -- A file with one line for each module, made of its path, its version and its count with a space
  -- between them, is read back to the modules whose count is at least the minimum, in their order:
  -- when the parts are not empty and have no white space, no path begins with #, and Atoi reads the
  -- counts that were printed.
  pub parse_corpus_file-lines :
      (min : ℤ) (mss : List ModuleSpec)
      → AreWritable mss
      → parse_corpus_file atoi (ok (map line_of mss, none)) min
        ≡ ok (filter_by (is_imported min) mss)
  unfolding parse_corpus_file read_file_lines
  parse_corpus_file-lines min mss h = rw (kept_lines-lines mss h, parse_lines-lines min mss h) refl
