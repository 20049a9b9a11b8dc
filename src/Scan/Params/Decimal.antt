-- ===== src/Scan/Params/Decimal.antt =====
-- Decimal numbers of 64 bits as package strconv documents them, for the tests of the parameters.
use pkgsite_metrics.Prelude.{
  ℕ, zero, suc, ◌+◌, ◌-◌, ◌*◌, ◌/◌, ◌%◌, ◌^◌, ◌<◌, ◌≡◌, refl, ◌∙◌, Bool, true, false, not, ◌&&◌, [],
  ◌∷◌, ◌++◌, Text, text, is_empty, ltb, leb, ◌==◌, if◌then◌else◌, arith, Bool-cases, inl, inr,
}
use pkgsite_metrics.Prelude.Int.{ℤ, pos, negsuc}
use pkgsite_metrics.Derrors.{Result, ok, err, plain}
use pkgsite_metrics.Scan.Params.RoundTrip.{is_int}

-- The last digits of a number, without zeros in front.
unfoldable pub digits : ℕ → ℕ → Text
digits zero n = []
digits (suc k) n =
    let front = digits k (n / 10) in
    let last = n % 10 + b'0' in if ltb n 10 then last ∷ [] else front ++ (last ∷ [])

unfoldable pub value : ℕ → Text → ℕ
value n [] = n
value n (c ∷ s) = value (10 * n + (c - b'0')) s

unfoldable pub all_digits : Text → Bool
all_digits [] = true
all_digits (c ∷ s) = (leb b'0' c && leb c b'9') && all_digits s

abbrev in_range : ℤ → Result ℤ
in_range n = if is_int n then ok n else err (plain (text "value out of range"))

abbrev minus : ℕ → ℤ
minus zero = pos zero
minus (suc n) = negsuc n

abbrev pub unsigned : (ℕ → ℤ) → Text → Result ℤ
unsigned sign s =
    if not (is_empty s) && all_digits s
    then in_range (sign (value 0 s))
    else err (plain (text "invalid syntax"))

-- strconv.Atoi
unfoldable pub atoi : Text → Result ℤ
atoi [] = err (plain (text "invalid syntax"))
atoi (c ∷ s) =
    if c == b'-'
    then unsigned minus s
    else if c == b'+'
    then unsigned pos s
    else unsigned pos (c ∷ s)

value-append : (n : ℕ) (s : Text) (c : ℕ) → value n (s ++ (c ∷ [])) ≡ 10 * value n s + (c - b'0')
unfolding value
value-append n [] c = refl
value-append n (d ∷ s) c = value-append (10 * n + (d - b'0')) s c

all_digits-append :
    (s : Text) (c : ℕ)
    → all_digits s ≡ true
    → (leb b'0' c && leb c b'9') ≡ true
    → all_digits (s ++ (c ∷ [])) ≡ true
unfolding all_digits
all_digits-append [] c h k = ground (arith, k)
all_digits-append (d ∷ s) c h k = ground (arith, h, all_digits-append s c)

last_digit : (n : ℕ) → (leb b'0' (n % 10 + b'0') && leb (n % 10 + b'0') b'9') ≡ true
last_digit n = ground arith

all_digits-digits : (k n : ℕ) → all_digits (digits k n) ≡ true
unfolding digits all_digits
all_digits-digits zero n = refl
all_digits-digits (suc k) n = elim (Bool-cases (ltb n 10)) [
  | inl small ↦ rw small (ground (arith, last_digit n))
  | inr more ↦
      rw more
        (all_digits-append (digits k (n / 10)) _ (all_digits-digits k (n / 10)) (last_digit n))
]

power : (k : ℕ) → 10 ^ suc k ≡ 10 * 10 ^ k
power k = omega arith

value-digits : (k n : ℕ) → n < 10 ^ k → value 0 (digits k n) ≡ n
unfolding digits value
value-digits zero n h = omega (arith, h)
value-digits (suc k) n h = elim (Bool-cases (ltb n 10)) [
  | inl small ↦ rw small (ground arith)
  | inr more ↦
      let rest : value 0 (digits k (n / 10)) ≡ n / 10 =
        value-digits k (n / 10) (omega (arith, h, power k)) in
      rw (more, value-append 0 (digits k (n / 10)) (n % 10 + b'0'), rest) (omega arith)
]

-- Which signs a text of digits does not start with.
no_sign :
    (c : ℕ) (s : Text) → all_digits (c ∷ s) ≡ true → ((c == b'-') ≡ false) × ((c == b'+') ≡ false)
unfolding all_digits
no_sign c s h = (ground (arith, h), ground (arith, h))

is_empty-append : (s : Text) (c : ℕ) → is_empty (s ++ (c ∷ [])) ≡ false
is_empty-append [] c = refl
is_empty-append (d ∷ s) c = refl

is_empty-digits : (k n : ℕ) → is_empty (digits (suc k) n) ≡ false
unfolding digits
is_empty-digits k n = elim (Bool-cases (ltb n 10)) [
  | inl small ↦ rw small refl
  | inr more ↦ rw more (is_empty-append (digits k (n / 10)) (n % 10 + b'0'))
]

unsigned-digits :
    (sign : ℕ → ℤ) (n : ℕ)
    → n < 10 ^ 20
    → is_int (sign n) ≡ true
    → unsigned sign (digits 20 n) ≡ ok (sign n)
unsigned-digits sign n h fits =
    rw (is_empty-digits 19 n, all_digits-digits 20 n, value-digits 20 n h, fits, not, if◌then◌else◌)
      refl

atoi_unsigned : (s : Text) → is_empty s ≡ false → all_digits s ≡ true → atoi s ≡ unsigned pos s
unfolding atoi
atoi_unsigned [] e h = absurd (ground (arith, e))
atoi_unsigned (c ∷ s) e h = let (m, p) = no_sign c s h in rw (m, p, if◌then◌else◌) refl

abbrev pub signed : ℤ → Text
signed (pos n) = digits 20 n
signed (negsuc n) = b'-' ∷ digits 20 (suc n)

pub atoi-signed : (n : ℤ) → is_int n ≡ true → atoi (signed n) ≡ ok n
unfolding atoi
atoi-signed (pos n) h =
    atoi_unsigned (digits 20 n) (is_empty-digits 19 n) (all_digits-digits 20 n)
    ∙ unsigned-digits pos n (ground (arith, h)) h
atoi-signed (negsuc n) h = unsigned-digits minus (suc n) (ground (arith, h)) h

pub is_empty-signed : (n : ℤ) → is_empty (signed n) ≡ false
is_empty-signed (pos n) = is_empty-digits 19 n
is_empty-signed (negsuc n) = refl
