-- ===== src/Version/Latest/Maximum.antt =====
-- internal/version/version.go: what LatestOf and LatestVersion choose.
use mathlib.Core.List.{Memᴰ}
use pkgsite_metrics.Prelude.{
  ◌≡◌, refl, ◌⊎◌, inl, inr, Bool, true, false, not, ◌||◌, List, [], ◌∷◌, Text, text, Bool-cases,
  arith, is_empty, if◌then◌else◌, has_suffix, count_byte,
}
use pkgsite_metrics.Derrors.{Result, ok}
use pkgsite_metrics.Version.Pseudo.{is_pseudo}
use pkgsite_metrics.Version.Latest.{
  Semver, IsPrecedence, is_incompatible, remove_if, select, later, latest_from, latest_of,
  compatible, latest_version,
}

module _ (semver : Semver) (precedence : IsPrecedence semver) where
  -- Later is a strict order: asymmetric, and not being later is transitive.
  later_asymm : (v w : Text) → later semver v w ≡ true → later semver w v ≡ false
  unfolding later
  later_asymm v w h = ground (arith, precedence.gt_asymm v w)

  not_later_trans :
      (u v w : Text)
      → later semver u v ≡ false
      → later semver v w ≡ false
      → later semver u w ≡ false
  unfolding later
  not_later_trans u v w h k = ground (arith, precedence.not_gt_trans u v w)

  -- `v` is one of the versions, and none of them is later.
  pub record IsLatest (v : Text) (versions : List Text) : Type 0 where
    pub is_member : Memᴰ v versions
    pub maximal : (w : Text) → Memᴰ w versions → later semver w v ≡ false

  later_irrefl : (v : Text) → later semver v v ≡ false
  later_irrefl v = ground (arith, later_asymm v v)

  not_later_of_mem :
      (r : Text) {latest v : Text} {versions : List Text}
      → later semver latest r ≡ false
      → later semver v r ≡ false
      → ((w : Text) → Memᴰ w versions → later semver w r ≡ false)
      → (w : Text) → Memᴰ w (latest ∷ v ∷ versions)
      → later semver w r ≡ false
  not_later_of_mem r hl hv rest w (Memᴰ.head e) = rw e hl
  not_later_of_mem r hl hv rest w (Memᴰ.tail (Memᴰ.head e)) = rw e hv
  not_later_of_mem r hl hv rest w (Memᴰ.tail (Memᴰ.tail m)) = rest w m

  skip_second :
      {r latest v : Text} {versions : List Text}
      → Memᴰ r (latest ∷ versions)
      → Memᴰ r (latest ∷ v ∷ versions)
  skip_second (Memᴰ.head e) = Memᴰ.head e
  skip_second (Memᴰ.tail m) = Memᴰ.tail (Memᴰ.tail m)

  latest_from-IsLatest :
      (latest : Text) (versions : List Text)
      → IsLatest (latest_from semver latest versions) (latest ∷ versions)
  unfolding latest_from
  latest_from-IsLatest latest [] = record {
    is_member = Memᴰ.head refl;
    maximal = λ w m.
        not_later_of_mem latest (later_irrefl latest) (later_irrefl latest) (λ x y. elim y [ ]) w
          (skip_second m);
  }
  latest_from-IsLatest latest (v ∷ versions) = elim (Bool-cases (later semver v latest)) [
    | inl newer ↦
        rw (newer, if◌then◌else◌)
          (let best = latest_from-IsLatest v versions in
            let top = best.maximal v (Memᴰ.head refl) in
            record {
              is_member = Memᴰ.tail best.is_member;
              maximal =
                  not_later_of_mem _ (not_later_trans latest v _ (later_asymm v latest newer) top)
                    top (λ w m. best.maximal w (Memᴰ.tail m));
            })
    | inr older ↦
        rw (older, if◌then◌else◌)
          (let best = latest_from-IsLatest latest versions in
            let top = best.maximal latest (Memᴰ.head refl) in
            record {
              is_member = skip_second best.is_member;
              maximal =
                  not_later_of_mem _ top (not_later_trans v latest _ older top)
                    (λ w m. best.maximal w (Memᴰ.tail m));
            })
  ]

  -- LatestOf of a list that is not empty is one of its versions, and no version of the list is
  -- later than it, where semver.Compare follows a precedence.
  pub latest_of-IsLatest :
      (v : Text) (versions : List Text) → IsLatest (latest_of semver (v ∷ versions)) (v ∷ versions)
  unfolding latest_of
  latest_of-IsLatest v versions = latest_from-IsLatest v versions

module _ (semver : Semver) (f : Text → Bool) where
  latest_from-remove_if :
      (latest : Text) (versions : List Text)
      → f latest ≡ false
      → f (latest_from semver latest (remove_if versions f)) ≡ false
  unfolding latest_from remove_if
  latest_from-remove_if latest [] h = h
  latest_from-remove_if latest (v ∷ versions) h = elim (Bool-cases (f v)) [
    | inl removed ↦ rw (removed, not, if◌then◌else◌) (latest_from-remove_if latest versions h)
    | inr kept ↦
        rw (kept, not, if◌then◌else◌)
          (latest_from-remove_if (if later semver v latest then v else latest) versions
            (ground arith))
  ]

  latest_of-remove_if :
      (versions : List Text)
      → f (text "") ≡ false
      → f (latest_of semver (remove_if versions f)) ≡ false
  unfolding latest_of remove_if
  latest_of-remove_if [] h = h
  latest_of-remove_if (v ∷ versions) h = elim (Bool-cases (f v)) [
    | inl removed ↦ rw (removed, not, if◌then◌else◌) (latest_of-remove_if versions h)
    | inr kept ↦ rw (kept, not, if◌then◌else◌) (latest_from-remove_if v versions kept)
  ]

not_removed_empty : is_incompatible (text "") || is_pseudo (text "") ≡ false
unfolding is_incompatible is_pseudo has_suffix count_byte
not_removed_empty = refl

latest_compatible :
    (semver : Semver) (versions : List Text)
    → is_incompatible (latest_of semver (compatible semver versions)) ≡ false
latest_compatible semver versions = ground (
  arith,
  latest_of-remove_if semver (λ v. is_incompatible v || is_pseudo v) versions not_removed_empty,
)

select_incompatible :
    (latest latest_compat : Text) (answer : Result Bool) {v : Text}
    → is_incompatible latest_compat ≡ false
    → select latest latest_compat answer ≡ ok v
    → is_incompatible v ≡ true
    → (v ≡ latest) × ((is_empty latest_compat ≡ true) ⊎ (answer ≡ ok false))
unfolding select is_incompatible has_suffix
select_incompatible latest latest_compat answer c h i = ground arith

-- When LatestVersion returns an incompatible version, it is the latest of all versions, and there
-- is no compatible tagged version, or the latest one of these has no go.mod file.
pub latest_version_incompatible :
    (semver : Semver) (versions : List Text) (has_go_mod : Text → Result Bool) {v : Text}
    → latest_version semver versions has_go_mod ≡ ok v
    → is_incompatible v ≡ true
    → (v ≡ latest_of semver versions)
      × ((is_empty (latest_of semver (compatible semver versions)) ≡ true)
          ⊎ (has_go_mod (latest_of semver (compatible semver versions)) ≡ ok false))
unfolding latest_version
latest_version_incompatible semver versions has_go_mod h i =
    select_incompatible _ _ _ (latest_compatible semver versions) h i
