-- ===== src/Version/Latest.antt =====
-- internal/version/version.go: version types, Later, LatestOf, LatestVersion and RemoveIf.
pub mod Maximum
mod Tests
use Prim.Native.Nat.{Ordering}
use pkgsite_metrics.Prelude.{
  Bool, true, false, not, ◌&&◌, ◌||◌, List, [], ◌∷◌, Text, text, if◌then◌else◌, is_empty,
  has_suffix, ◌≡◌,
}
use pkgsite_metrics.Derrors.{plain, Result, ok, err}
use pkgsite_metrics.Version.Pseudo.{is_pseudo}

-- What the program uses of golang.org/x/mod/semver.
pub record Semver : Type 0 where
  pub is_valid : Text → Bool
  pub prerelease : Text → Text
  pub compare : Text → Text → Ordering

abbrev pub is_gt : Ordering → Bool
is_gt Ordering.gt = true
is_gt _ = false

-- The documented behaviour of semver.Compare: it follows a precedence, so being greater is
-- asymmetric and not being greater is transitive.
pub record IsPrecedence (semver : Semver) : Type 0 where
  pub gt_asymm :
      (v w : Text) → is_gt (semver.compare v w) ≡ true → is_gt (semver.compare w v) ≡ false
  pub not_gt_trans :
      (u v w : Text)
      → is_gt (semver.compare u v) ≡ false
      → is_gt (semver.compare v w) ≡ false
      → is_gt (semver.compare u w) ≡ false

pub data VersionType : Type 0 where
  type_release type_prerelease type_pseudo : VersionType

pub is_incompatible : Text → Bool
is_incompatible v = has_suffix v (text "+incompatible")

-- RemoveIf
pub remove_if : List Text → (Text → Bool) → List Text
remove_if [] f = []
remove_if (x ∷ s) f = let rest = remove_if s f in if not (f x) then x ∷ rest else rest

abbrev choose : Text → Text → Result Bool → Result Text
choose latest latest_compat (ok true) = ok latest_compat
choose latest latest_compat (ok false) = ok latest
choose latest latest_compat (err e) = err e

-- The tests of LatestVersion, on the latest version, the latest compatible one, and what
-- hasGoMod says of the latter.
pub select : Text → Text → Result Bool → Result Text
select latest latest_compat answer =
    if is_empty latest
    then ok (text "")
    else if not (is_incompatible latest)
    then ok latest
    else if is_empty latest_compat
    then ok latest
    else choose latest latest_compat answer

module _ (semver : Semver) where
  pub parse_type : Text → Result VersionType
  parse_type version =
      if not (semver.is_valid version)
      then err (plain (text "ParseType: invalid semver"))
      else if is_pseudo version
      then ok type_pseudo
      else if not (is_empty (semver.prerelease version))
      then ok type_prerelease
      else ok type_release

  abbrev is_release : Text → Bool
  is_release v = is_empty (semver.prerelease v)

  abbrev same : Bool → Bool → Bool
  same true b = b
  same false b = not b

  pub later : Text → Text → Bool
  later v1 v2 =
      if is_release v1 && is_release v2
      then is_gt (semver.compare v1 v2)
      else if not (same (is_release v1) (is_release v2))
      then is_release v1
      else if same (is_pseudo v1) (is_pseudo v2)
      then is_gt (semver.compare v1 v2)
      else not (is_pseudo v1)

  -- The loop of LatestOf.
  pub latest_from : Text → List Text → Text
  latest_from latest [] = latest
  latest_from latest (v ∷ versions) = latest_from (if later v latest then v else latest) versions

  pub latest_of : List Text → Text
  latest_of [] = text ""
  latest_of (v ∷ versions) = latest_from v versions

  abbrev compatible : List Text → List Text
  compatible versions = remove_if versions (λ v. is_incompatible v || is_pseudo v)

  pub latest_version : List Text → (Text → Result Bool) → Result Text
  latest_version versions has_go_mod =
      let latest_compat = latest_of (compatible versions) in
      select (latest_of versions) latest_compat (has_go_mod latest_compat)
