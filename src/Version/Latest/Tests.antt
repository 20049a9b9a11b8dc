-- ===== src/Version/Latest/Tests.antt =====
-- Runs and witnesses for a comparison that looks at the last byte of the versions alone.
use Prim.Native.Nat.{Ordering}
use pkgsite_metrics.Prelude.{
  ℕ, ◌≡◌, refl, Bool, true, false, List, [], ◌∷◌, Text, text, arith, ltb, if◌then◌else◌,
}
use pkgsite_metrics.Derrors.{Result, ok}
use pkgsite_metrics.Version.Latest.{Semver, IsPrecedence, is_gt, later, latest_from, latest_of}
use pkgsite_metrics.Version.Latest.Maximum.{IsLatest, latest_of-IsLatest}

last_byte : ℕ → Text → ℕ
last_byte n [] = n
last_byte n (c ∷ s) = last_byte c s

abbrev by_number : ℕ → ℕ → Ordering
by_number m n = if ltb n m then Ordering.gt else Ordering.lt

abbrev by_last_byte : Semver
by_last_byte = record {
  is_valid = λ v. true;
  prerelease = λ v. [];
  compare = λ v w. by_number (last_byte 0 v) (last_byte 0 w);
}

by_number_asymm : (m n : ℕ) → is_gt (by_number m n) ≡ true → is_gt (by_number n m) ≡ false
by_number_asymm m n h = ground arith

by_number_trans :
    (k m n : ℕ)
    → is_gt (by_number k m) ≡ false
    → is_gt (by_number m n) ≡ false
    → is_gt (by_number k n) ≡ false
by_number_trans k m n h p = ground arith

by_last_byte-IsPrecedence : IsPrecedence by_last_byte
by_last_byte-IsPrecedence = record {
  gt_asymm = λ v w h. by_number_asymm (last_byte 0 v) (last_byte 0 w) h;
  not_gt_trans = λ u v w h k. by_number_trans (last_byte 0 u) (last_byte 0 v) (last_byte 0 w) h k;
}

abbrev versions : List Text
versions = text "v1.0.1" ∷ text "v1.0.3" ∷ text "v1.0.2" ∷ []

latest_of-versions : latest_of by_last_byte versions ≡ text "v1.0.3"
unfolding latest_of latest_from later last_byte
latest_of-versions = refl

latest_of-IsLatest_example :
    IsLatest by_last_byte by_last_byte-IsPrecedence (latest_of by_last_byte versions) versions
latest_of-IsLatest_example =
    latest_of-IsLatest by_last_byte by_last_byte-IsPrecedence (text "v1.0.1")
      (text "v1.0.3" ∷ text "v1.0.2" ∷ [])

abbrev incompatible : List Text
incompatible = text "v2.0.0+incompatible" ∷ []

abbrev no_go_mod : Text → Result Bool
no_go_mod v = ok false
