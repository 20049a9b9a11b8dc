-- ===== src/Version/Pseudo.antt =====
-- internal/version/version.go: the regular expression pseudoVersionRE and IsPseudo. Of package
-- regexp the model has the constructs that this expression uses, matched by derivatives; by bytes,
-- as the one class that takes characters outside ASCII stands under a star.
mod Tests
use pkgsite_metrics.Prelude.{
  ℕ, zero, suc, Bool, true, false, not, ◌&&◌, ◌||◌, [], ◌∷◌, Text, text, leb, ◌==◌, count_byte,
}

pub data Regex : Type 0 where
  nothing : Regex
  nil : Regex
  class : (ℕ → Bool) → Regex
  seq : Regex → Regex → Regex
  alt : Regex → Regex → Regex
  star : Regex → Regex

pub nullable : Regex → Bool
nullable nothing = false
nullable nil = true
nullable (class p) = false
nullable (seq r s) = nullable r && nullable s
nullable (alt r s) = nullable r || nullable s
nullable (star r) = true

-- What is left to match after the byte `c`. `keep` is `r` if the test holds.
abbrev keep : Bool → Regex → Regex
keep true r = r
keep false r = nothing

pub derivative : ℕ → Regex → Regex
derivative c nothing = nothing
derivative c nil = nothing
derivative c (class p) = keep (p c) nil
derivative c (seq r s) = alt (seq (derivative c r) s) (keep (nullable r) (derivative c s))
derivative c (alt r s) = alt (derivative c r) (derivative c s)
derivative c (star r) = seq (derivative c r) (star r)

-- The whole text matches.
pub matches : Regex → Text → Bool
matches r [] = nullable r
matches r (c ∷ s) = matches (derivative c r) s

abbrev pub literal : Text → Regex
literal [] = nil
literal (c ∷ s) = seq (class (λ b. b == c)) (literal s)

abbrev pub plus : Regex → Regex
plus r = seq r (star r)

abbrev pub repeat : ℕ → Regex → Regex
repeat zero r = nil
repeat (suc n) r = seq r (repeat n r)

abbrev pub digit : Regex
digit = class (λ c. leb b'0' c && leb c b'9')

abbrev pub alphanumeric : Regex
alphanumeric =
    class
      (λ c. (leb b'A' c && leb c b'Z') || (leb b'a' c && leb c b'z') || (leb b'0' c && leb c b'9'))

abbrev pub not_plus_sign : Regex
not_plus_sign = class (λ c. not (c == b'+'))

-- \d+\.\d+-([^+]*\.)?0\.
abbrev later_base : Regex
later_base = seq (plus digit) (
    seq (literal (text ".")) (
      seq (plus digit) (
        seq (literal (text "-"))
          (seq (alt nil (seq (star not_plus_sign) (literal (text ".")))) (literal (text "0."))))))

-- ^v[0-9]+\.(0\.0-|\d+\.\d+-([^+]*\.)?0\.)\d{14}-[A-Za-z0-9]+(\+incompatible)?$
abbrev pub pseudo_version_re : Regex
pseudo_version_re = seq (literal (text "v")) (
    seq (plus digit) (
      seq (literal (text ".")) (
        seq (alt (literal (text "0.0-")) later_base) (
          seq (repeat 14 digit) (
            seq (literal (text "-"))
              (seq (plus alphanumeric) (alt nil (literal (text "+incompatible")))))))))

unfoldable pub is_pseudo : Text → Bool
unfolding matches derivative nullable
is_pseudo v = leb 2 (count_byte b'-' v) && matches pseudo_version_re v
