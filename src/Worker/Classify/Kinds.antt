-- ===== src/Worker/Classify/Kinds.antt =====
-- internal/worker/govulncheck_scan.go: the categories of the errors that CheckModule records.
use pkgsite_metrics.Prelude.{
  ◌≡◌, refl, ap, ◌∙◌, true, false, not, ◌&&◌, ◌||◌, [], Text, text, text_eq, arith,
}
use pkgsite_metrics.Derrors.{
  Err, Kind, sentinel, is, same_kind, of_kind, load_packages_error, scan_module_panic_error,
}
use pkgsite_metrics.Derrors.Category.{categorize_error, categorize_error-reclassify}
use pkgsite_metrics.Worker.Classify.{
  is_mod_vendor, is_govulncheck_load_error, is_build_issue, check_kind, classify_check_error,
  unrecoverable_error,
}

load_category :
    (k : Kind)
    → unrecoverable_error (categorize_error (sentinel k)) ≡ same_kind k load_packages_error
unfolding unrecoverable_error categorize_error is same_kind text_eq
load_category load_packages_error = refl
load_category _ = refl

panic_category :
    (k : Kind)
    → text_eq (categorize_error (sentinel k)) (text "PANIC") ≡ same_kind k scan_module_panic_error
unfolding categorize_error is same_kind text_eq
panic_category scan_module_panic_error = refl
panic_category _ = refl

check_kind-load :
    (e : Err)
    → same_kind (check_kind e) load_packages_error
      ≡ (not (is_mod_vendor e) && (is_govulncheck_load_error e || is_build_issue e))
unfolding check_kind same_kind
check_kind-load e = ground arith

check_kind-panic : (e : Err) → same_kind (check_kind e) scan_module_panic_error ≡ false
unfolding check_kind same_kind
check_kind-panic e = ground arith

-- The category that CheckModule records for a scan error is an unrecoverable one exactly when the
-- text of the error tells of a failure of govulncheck to load packages, or of a build issue, and
-- not of a vendor directory.
pub classify_check_error_unrecoverable :
    (e : Err)
    → unrecoverable_error (categorize_error (classify_check_error e))
      ≡ (not (is_mod_vendor e) && (is_govulncheck_load_error e || is_build_issue e))
unfolding classify_check_error
classify_check_error_unrecoverable e =
    ap unrecoverable_error (categorize_error-reclassify e (check_kind e) []).0
    ∙ load_category (check_kind e)
    ∙ check_kind-load e

-- The category that CheckModule records for a scan error is never that of a panic, whatever the
-- error is: also not for the error that doScan makes of a panic, whose own category is "PANIC".
pub classify_check_error_panic :
    (e : Err) (t : Text)
    → (text_eq (categorize_error (classify_check_error e)) (text "PANIC") ≡ false)
      × (text_eq (categorize_error (of_kind scan_module_panic_error t)) (text "PANIC") ≡ true)
unfolding classify_check_error same_kind
classify_check_error_panic e t = (
  ap (λ c. text_eq c (text "PANIC")) (categorize_error-reclassify e (check_kind e) []).0
      ∙ panic_category (check_kind e)
      ∙ check_kind-panic e,
  ap (λ c. text_eq c (text "PANIC")) (categorize_error-reclassify e scan_module_panic_error t).1
      ∙ panic_category scan_module_panic_error,
)
