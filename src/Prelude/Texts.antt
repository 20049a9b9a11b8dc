-- ===== src/Prelude/Texts.antt =====
-- Go strings as lists of bytes, and what the program uses of package strings.
use Prim.Native.Char.{code}
use Prim.Native.String.{String}
use Prim.Native.Nat.{ℕ, ◌+◌}
use mathlib.Core.Path.{◌≡◌, refl, ap}
use mathlib.Core.Logic.{◌↔◌, inl, inr}
use mathlib.Core.List.{List, [], ◌∷◌, ◌++◌, reverse}
use mathlib.Core.Bool.{Bool, true, false, ◌&&◌, ◌||◌}
use mathlib.Core.Option.{Option, none, some}
use native.Mathlib.Omega.{arith}
use pkgsite_metrics.Prelude.Tests.{◌==◌, ==_iff, ltb, if◌then◌else◌, Bool-cases, both}

abbrev pub Text : Type 0
Text = List ℕ

-- The bytes of an ASCII literal.
abbrev pub text : String → Text
text String.[] = []
text (String.◌∷◌ c s) = code c ∷ text s

abbrev pub is_empty : Text → Bool
is_empty [] = true
is_empty (_ ∷ _) = false

unfoldable pub text_eq : Text → Text → Bool
text_eq [] [] = true
text_eq (x ∷ a) (y ∷ b) = x == y && text_eq a b
text_eq _ _ = false

pub text_eq_iff : (a b : Text) → (text_eq a b ≡ true) ↔ (a ≡ b)
unfolding text_eq
text_eq_iff (x ∷ a) (y ∷ b) = ground (arith, text_eq_iff a b)
text_eq_iff _ _ = ground arith

pub text_eq_refl : (a : Text) → text_eq a a ≡ true
text_eq_refl a = (text_eq_iff a a).1 refl

pub differs : (m n : Text) → text_eq n m ≡ false → text_eq m n ≡ false
differs m n h = elim (Bool-cases (text_eq m n)) [
  | inr other ↦ other
  | inl same ↦ ground (arith, h, text_eq_refl n, ap (text_eq n) ((text_eq_iff m n).0 same))
]

-- The order of strings.
unfoldable pub text_lt : Text → Text → Bool
text_lt a [] = false
text_lt [] (y ∷ b) = true
text_lt (x ∷ a) (y ∷ b) = ltb x y || (x == y && text_lt a b)

-- strings.HasPrefix
unfoldable pub has_prefix : Text → Text → Bool
has_prefix s [] = true
has_prefix [] (p ∷ ps) = false
has_prefix (c ∷ s) (p ∷ ps) = c == p && has_prefix s ps

-- strings.TrimPrefix: `rest` is the text to give back when the prefix does not match.
trim_prefix_or : Text → Text → Text → Text
trim_prefix_or whole s [] = s
trim_prefix_or whole [] (p ∷ ps) = whole
trim_prefix_or whole (c ∷ s) (p ∷ ps) =
    let rest = trim_prefix_or whole s ps in if c == p then rest else whole

unfoldable pub trim_prefix : Text → Text → Text
unfolding trim_prefix_or
trim_prefix s p = trim_prefix_or s s p

-- strings.HasSuffix
unfoldable pub has_suffix : Text → Text → Bool
unfolding has_prefix
has_suffix s p = has_prefix (reverse s) (reverse p)

-- strings.Contains
pub contains : Text → Text → Bool
unfolding has_prefix
contains [] p = is_empty p
contains (c ∷ s) p = has_prefix (c ∷ s) p || contains s p

-- Puts a byte before the first part of a split text.
abbrev before : ℕ → Option (Text × Text) → Option (Text × Text)
before c none = none
before c (some (l, r)) = some (c ∷ l, r)

-- strings.Cut at a single byte: what stands before and after its first occurrence.
unfoldable pub cut : ℕ → Text → Option (Text × Text)
cut b [] = none
cut b (c ∷ s) = if c == b then some ([], s) else before c (cut b s)

-- How often a byte occurs.
unfoldable pub count_byte : ℕ → Text → ℕ
count_byte b [] = 0
count_byte b (c ∷ s) = (if c == b then 1 else 0) + count_byte b s

-- `cut` gives back the text around the byte, and the byte does not occur before it.
pub cut-append : (b : ℕ) (l r : Text) → count_byte b l ≡ 0 → cut b (l ++ (b ∷ r)) ≡ some (l, r)
unfolding cut count_byte
cut-append b [] r h = ground arith
cut-append b (c ∷ l) r h = ground (arith, cut-append b l r)

pub cut-none : (b : ℕ) (s : Text) → count_byte b s ≡ 0 → cut b s ≡ none
unfolding cut count_byte
cut-none b [] h = refl
cut-none b (c ∷ s) h = ground (arith, cut-none b s)

before-some :
    (c : ℕ) (o : Option (Text × Text)) {l r : Text}
    → before c o ≡ some (l, r)
    → (m : Text) × (o ≡ some (m, r)) × (l ≡ c ∷ m)
before-some c none h = cc
before-some c (some (m, r)) h = (m, cc, cc)

pub cut-some :
    (b : ℕ) (s : Text) {l r : Text}
    → cut b s ≡ some (l, r)
    → (s ≡ l ++ (b ∷ r)) × (count_byte b l ≡ 0)
unfolding cut count_byte
cut-some b [] h = ground arith
cut-some b (c ∷ s) {l} {r} h = elim (Bool-cases (c == b)) [
  | inl same ↦ ground arith
  | inr other ↦
      let (m, e, el) = before-some c (cut b s) (rw other at h) in
      let (split, clean) = cut-some b s e in (ground arith, ground arith)
]

trim_prefix_or-append : (whole p s : Text) → trim_prefix_or whole (p ++ s) p ≡ s
unfolding trim_prefix_or
trim_prefix_or-append whole [] s = refl
trim_prefix_or-append whole (c ∷ p) s = ground (arith, trim_prefix_or-append whole p s)

pub trim_prefix-append : (p s : Text) → trim_prefix (p ++ s) p ≡ s
unfolding trim_prefix
trim_prefix-append p s = trim_prefix_or-append (p ++ s) p s

pub has_prefix_rest : (s p : Text) → has_prefix s p ≡ true → (t : Text) × (s ≡ p ++ t)
unfolding has_prefix
has_prefix_rest s [] h = (s, refl)
has_prefix_rest [] (c ∷ p) h = cc
has_prefix_rest (b ∷ s) (c ∷ p) h =
    let (same, more) = both (b == c) _ h in
    let (t, e) = has_prefix_rest s p more in (t, ground (arith, (==_iff b c).0 same, e))
