-- ===== src/Osv/ReviewStatus.antt =====
-- internal/osv/review_status.go. A status is an int: 0 unknown, 1 unreviewed, 2 reviewed. A
-- negative one is left out: it is as invalid as one above 2.
mod Tests
use pkgsite_metrics.Prelude.{
  ℕ, zero, suc, ◌+◌, ◌≡◌, refl, Bool, false, List, [], ◌∷◌, ◌++◌, Option, none, some, Text, text,
  text_eq, ltb, length, if◌then◌else◌, arith,
}

abbrev pub status_strs : List Text
status_strs = text "" ∷ text "UNREVIEWED" ∷ text "REVIEWED" ∷ []

pub is_valid : ℕ → Bool
is_valid r = ltb r (length status_strs)

abbrev nth : List Text → ℕ → Text
nth [] n = text ""
nth (s ∷ strs) zero = s
nth (s ∷ strs) (suc n) = nth strs n

-- ReviewStatus.String, with `print` for the decimal digits of %d.
pub string : (ℕ → Text) → ℕ → Text
string print r = if is_valid r then nth status_strs r else text "INVALID(" ++ (print r ++ text ")")

-- The loop of ToReviewStatus, from the index `stat` on.
find_status : ℕ → List Text → Text → Option ℕ
find_status stat [] s = none
find_status stat (str ∷ strs) s = if text_eq s str then some stat else find_status (stat + 1) strs s

pub to_review_status : Text → Option ℕ
to_review_status s = find_status 0 status_strs s

-- ToReviewStatus reads back the string of a status exactly when the status is valid, and what it
-- reads is that status; of the string of an invalid status it reads nothing.
pub to_review_status-string :
    (print : ℕ → Text) (r : ℕ)
    → to_review_status (string print r) ≡ (if is_valid r then some r else none)
unfolding to_review_status string find_status is_valid text_eq
to_review_status-string print zero = refl
to_review_status-string print (suc zero) = refl
to_review_status-string print (suc (suc zero)) = refl
to_review_status-string print (suc (suc (suc n))) =
    let e : ltb (suc (suc (suc n))) 3 ≡ false = ground arith in rw (e, if◌then◌else◌, text_eq)
