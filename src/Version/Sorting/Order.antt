-- ===== src/Version/Sorting/Order.antt =====
-- internal/version/version.go: appendNumericPrefix keeps the order of numbers.
use Prim.Native.Nat.add
use native.Mathlib.Nat.{pow-suc}
use pkgsite_metrics.Prelude.{
  ℕ, zero, suc, ◌+◌, ◌-◌, ◌*◌, ◌/◌, ◌%◌, ◌^◌, ◌≤◌, ◌<◌, ◌≡◌, refl, ◌∙◌, ◌⊎◌, inl, inr, true, false,
  [], ◌∷◌, ◌++◌, Text, text_lt, length, replicate, ltb, ◌==◌, if◌then◌else◌, arith, append-nil,
  Bool-cases,
}
use pkgsite_metrics.Version.Sorting.{append_numeric_prefix}

abbrev IsDigit : ℕ → Type 0
IsDigit c = (48 ≤ c) × (c ≤ 57)

abbrev AllDigits : Text → Type 0
AllDigits [] = Unit
AllDigits (c ∷ s) = IsDigit c × AllDigits s

-- Digits, at least one, and no leading zero before others.
abbrev pub IsNumeral : Text → Type 0
IsNumeral [] = ⊥
IsNumeral (c ∷ []) = IsDigit c
IsNumeral (c ∷ d ∷ s) = (49 ≤ c) × (c ≤ 57) × AllDigits (d ∷ s)

pub value : Text → ℕ
value [] = 0
value (c ∷ s) = (c - 48) * 10 ^ length s + value s

-- A smaller leading digit makes a smaller number, whatever digits follow.
digit_lt : (k m p v w : ℕ) → k < m → v < p → k * p + v < m * p + w
digit_lt k m p v w h hv = grind arith

value-lt-pow : (s : Text) → AllDigits s → value s < 10 ^ length s
unfolding value
value-lt-pow [] h = omega arith
value-lt-pow (c ∷ s) (hc, hs) = rw (pow-suc 10 (length s)) (
    omega
      (arith, digit_lt (c - 48) 10 (10 ^ length s) (value s) 0 (omega arith) (value-lt-pow s hs)))

letters : ℕ → ℕ → Text
letters q r = replicate q b'z' ++ (if ltb 0 r then (b'a' + r - 1) ∷ [] else [])

prefix_letters : (n : ℕ) → append_numeric_prefix [] n ≡ letters ((n - 1) / 26) ((n - 1) % 26)
unfolding append_numeric_prefix letters
prefix_letters n = elim (Bool-cases (ltb 0 ((n - 1) % 26))) [
  | inl more ↦ rw (more, if◌then◌else◌)
  | inr even ↦ rw (even, if◌then◌else◌) (rw append-nil)
]

-- Fewer letters come first, whatever digits follow.
letters_lt :
    (q r q' r' d e : ℕ) (x y : Text)
    → r < 26
    → r' < 26
    → (q < q') ⊎ ((q ≡ q') × (r < r'))
    → IsDigit d
    → IsDigit e
    → (text_lt (letters q r ++ (d ∷ x)) (letters q' r' ++ (e ∷ y)) ≡ true)
      × (text_lt (letters q' r' ++ (e ∷ y)) (letters q r ++ (d ∷ x)) ≡ false)
unfolding letters text_lt
letters_lt zero r zero r' d e x y hr hr' h hd he = ground arith
letters_lt zero r (suc q') r' d e x y hr hr' h hd he = ground arith
letters_lt (suc q) r zero r' d e x y hr hr' h hd he = absurd (omega arith)
letters_lt (suc q) r (suc q') r' d e x y hr hr' h hd he =
    ground (arith, letters_lt q r q' r' d e x y)

same_length :
    (a b r s : Text)
    → AllDigits a
    → AllDigits b
    → length a ≡ length b
    → text_lt (a ++ r) (b ++ s) ≡ (
        if ltb (value a) (value b)
        then true
        else if ltb (value b) (value a)
        then false
        else text_lt r s)
unfolding text_lt value
same_length [] [] r s ha hb e = refl
same_length [] (y ∷ b) r s ha hb e = absurd (omega arith)
same_length (x ∷ a) [] r s ha hb e = absurd (omega arith)
same_length (x ∷ a) (y ∷ b) r s (hx, ha) (hy, hb) e =
    let same : length a ≡ length b = omega arith in
    rw same (
      ground (
        arith,
        same_length a b r s ha hb same,
        digit_lt (x - 48) (y - 48) (10 ^ length b) (value a) (value b),
        digit_lt (y - 48) (x - 48) (10 ^ length b) (value b) (value a),
        (rw same at (value-lt-pow a ha)),
        value-lt-pow b hb,
      ))

pow_mono : (m k : ℕ) → 10 ^ m ≤ 10 ^ (k + m)
pow_mono m zero = rw (add.zero m) (omega arith)
pow_mono m (suc k) = rw (add.suc k m, pow-suc) (omega (arith, pow_mono m k))

IsNumeral-AllDigits : (a : Text) → IsNumeral a → AllDigits a
IsNumeral-AllDigits [] h = elim h [ ]
IsNumeral-AllDigits (c ∷ []) h = (h, tt)
IsNumeral-AllDigits (c ∷ d ∷ s) (lo, hi, h) = ((omega arith, hi), h)

pow-le_of_le : (m n : ℕ) → m ≤ n → 10 ^ m ≤ 10 ^ n
pow-le_of_le m n h = let e : n - m + m ≡ n = omega arith in rw (← e) (pow_mono m (n - m))

mul-le : (k p : ℕ) → 1 ≤ k → p ≤ k * p
mul-le k p h = grind arith

shorter-lt : (a b : Text) → IsNumeral a → IsNumeral b → length a < length b → value a < value b
unfolding value
shorter-lt a [] ha hb h = elim hb [ ]
shorter-lt [] b ha hb h = elim ha [ ]
shorter-lt (x ∷ a) (c ∷ []) ha hb h = absurd (omega arith)
shorter-lt (x ∷ a) (c ∷ d ∷ s) ha (lo, hi, hs) h = omega (
  arith,
  value-lt-pow (x ∷ a) (IsNumeral-AllDigits (x ∷ a) ha),
  pow-le_of_le (length (x ∷ a)) (length (d ∷ s)) (omega arith),
  mul-le (c - 48) (10 ^ length (d ∷ s)) (omega arith),
)

-- A digit string behind its prefix, with what follows it in the encoded version.
abbrev pub encoded : Text → Text → Text
encoded a rest = append_numeric_prefix [] (length a) ++ (a ++ rest)

quotient_or_rest : (m n : ℕ) → m < n → (m / 26 < n / 26) ⊎ ((m / 26 ≡ n / 26) × (m % 26 < n % 26))
quotient_or_rest m n h = elim (Bool-cases (ltb (m / 26) (n / 26))) [
  | inl less ↦ inl (ground arith)
  | inr same ↦ let le : n / 26 ≤ m / 26 = ground arith in inr (omega arith, omega arith)
]

text_lt-append_left : (p a b : Text) → text_lt (p ++ a) (p ++ b) ≡ text_lt a b
unfolding text_lt
text_lt-append_left [] a b = refl
text_lt-append_left (x ∷ p) a b = ground (arith, text_lt-append_left p a b)

encoded_shorter :
    (a b r s : Text)
    → IsNumeral a
    → IsNumeral b
    → length a < length b
    → (text_lt (encoded a r) (encoded b s) ≡ true) × (text_lt (encoded b s) (encoded a r) ≡ false)
encoded_shorter [] b r s ha hb h = elim ha [ ]
encoded_shorter (x ∷ a) [] r s ha hb h = elim hb [ ]
encoded_shorter (x ∷ a) (y ∷ b) r s ha hb h =
    let m = length a in
    let n = length b in
    rw (prefix_letters (suc m), prefix_letters (suc n))
      (letters_lt _ _ _ _ x y (a ++ r) (b ++ s) (omega arith) (omega arith)
        (quotient_or_rest (suc m - 1) (suc n - 1) (omega arith)) (IsNumeral-AllDigits (x ∷ a) ha).0
        (IsNumeral-AllDigits (y ∷ b) hb).0)

-- The encoding of numbers keeps their order: of two digit strings without leading zeros, each
-- behind the prefix that appendNumericPrefix gives for its length and before any rest, the
-- string of the smaller number comes first in the order of strings, and where the numbers are
-- equal the order is that of the rests.
pub encoded_order :
    (a b r s : Text)
    → IsNumeral a
    → IsNumeral b
    → text_lt (encoded a r) (encoded b s) ≡ (
        if ltb (value a) (value b)
        then true
        else if ltb (value b) (value a)
        then false
        else text_lt r s)
encoded_order a b r s ha hb = elim (Bool-cases (length a == length b)) [
  | inl even ↦
      let e : length a ≡ length b = ground arith in
      rw e (
        text_lt-append_left (append_numeric_prefix [] (length b)) (a ++ r) (b ++ s)
        ∙ same_length a b r s (IsNumeral-AllDigits a ha) (IsNumeral-AllDigits b hb) e)
  | inr odd ↦ elim (Bool-cases (ltb (length a) (length b))) [
    | inl less ↦ ground (arith, encoded_shorter a b r s ha hb, shorter-lt a b ha hb)
    | inr more ↦ ground (arith, encoded_shorter b a s r hb ha, shorter-lt b a hb ha)
  ]
]
