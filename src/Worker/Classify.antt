-- ===== src/Worker/Classify.antt =====
-- internal/worker/scan.go and internal/worker/govulncheck_scan.go: the tests on the text of a scan
-- error, and the switches of CheckModule and of the analysis server's scan that give the error a
-- kind.
pub mod Kinds
mod Tests
use pkgsite_metrics.Prelude.{
  ℕ, zero, suc, Bool, false, not, ◌&&◌, ◌||◌, [], ◌∷◌, Text, text, contains, has_prefix, text_eq,
  ◌==◌, if◌then◌else◌,
}
use pkgsite_metrics.Derrors.{
  Err, message, sentinel, reclassify, Kind, load_vendor_error, load_packages_error,
  load_packages_no_required_module_error, load_packages_missing_go_sum_entry_error,
  load_packages_imported_local_error, load_packages_no_go_mod_error,
  scan_module_too_many_open_files, proxy_error, scan_module_sandbox_error,
  scan_module_govulncheck_error, scan_synthetic_module_error,
}
use pkgsite_metrics.Derrors.Category.{categorize_error}

pub says : Err → Text → Bool
says e s = contains (message e) s

abbrev pub is_no_modules_specified : Err → Bool
is_no_modules_specified e = says e (text "no modules specified")

abbrev pub is_too_many_files : Err → Bool
is_too_many_files e = says e (text "too many open files")

abbrev pub is_no_required_module : Err → Bool
is_no_required_module e = says e (text "no required module")

abbrev pub is_missing_go_sum_entry : Err → Bool
is_missing_go_sum_entry e = says e (text "missing go.sum entry")

abbrev pub is_missing_go_mod : Err → Bool
is_missing_go_mod e = says e (text "no go.mod file")

abbrev pub is_mod_vendor : Err → Bool
is_mod_vendor e = says e (text "-mod=vendor")

-- A slash behind at most `n` bytes that are no newline.
slash_within : ℕ → Text → Bool
slash_within n [] = false
slash_within zero (c ∷ s) = c == b'/'
slash_within (suc n) (c ∷ s) = c == b'/' || (not (c == b'\n') && slash_within n s)

abbrev after_replaced_by : Text → Bool
after_replaced_by (_ ∷ _ ∷ _ ∷ _ ∷ _ ∷ _ ∷ _ ∷ _ ∷ _ ∷ _ ∷ _ ∷ _ ∷ s) = slash_within 2 s
after_replaced_by _ = false

-- The regular expression `replaced by .{0,2}/`, at any place of the text. A character is a byte
-- here: the paths that it is made for, "./" and "../", are ASCII.
pub replaced_by_local : Text → Bool
replaced_by_local [] = false
replaced_by_local (c ∷ s) =
    (has_prefix (c ∷ s) (text "replaced by ") && after_replaced_by (c ∷ s)) || replaced_by_local s

abbrev pub is_replacing_with_local_path : Err → Bool
is_replacing_with_local_path e =
    replaced_by_local (message e) && says e (text "go.mod: no such file")

abbrev pub is_proxy_cache_miss : Err → Bool
is_proxy_cache_miss e = says e (text "server response") && says e (text "temporarily unavailable")

abbrev pub is_build_issue : Err → Bool
is_build_issue e =
    says e (text "does not contain package")
    || says e (text "but was required")
    || says e (text "relative import paths are not supported in module mode")

abbrev pub is_sandbox_related_issue : Err → Bool
is_sandbox_related_issue e = says e (text "exit status 137")

abbrev pub is_govulncheck_load_error : Err → Bool
is_govulncheck_load_error e =
    says e (text "govulncheck: loading packages:") || says e (text "FindAndBuildBinaries")

-- The kind that CheckModule gives to a scan error.
pub check_kind : Err → Kind
check_kind e =
    if is_mod_vendor e
    then load_vendor_error
    else if is_govulncheck_load_error e || is_build_issue e
    then load_packages_error
    else if is_no_required_module e
    then load_packages_no_required_module_error
    else if is_missing_go_sum_entry e
    then load_packages_missing_go_sum_entry_error
    else if is_replacing_with_local_path e
    then load_packages_imported_local_error
    else if is_missing_go_mod e || is_no_modules_specified e
    then load_packages_no_go_mod_error
    else if is_too_many_files e
    then scan_module_too_many_open_files
    else if is_proxy_cache_miss e
    then proxy_error
    else if is_sandbox_related_issue e
    then scan_module_sandbox_error
    else scan_module_govulncheck_error

pub classify_check_error : Err → Err
classify_check_error e = reclassify e (check_kind e)

-- The switch of the analysis server's scan: an error that no case knows stays as it is, if the
-- module has a go.mod file.
pub classify_analysis_error : Bool → Err → Err
classify_analysis_error has_go_mod e =
    if is_no_modules_specified e
    then reclassify e load_packages_no_go_mod_error
    else if is_mod_vendor e
    then reclassify e load_vendor_error
    else if is_no_required_module e
    then reclassify e load_packages_no_required_module_error
    else if is_too_many_files e
    then reclassify e scan_module_too_many_open_files
    else if is_missing_go_sum_entry e
    then reclassify e load_packages_missing_go_sum_entry_error
    else if is_replacing_with_local_path e
    then reclassify e load_packages_imported_local_error
    else if is_proxy_cache_miss e
    then reclassify e proxy_error
    else if is_sandbox_related_issue e
    then reclassify e scan_module_sandbox_error
    else if is_build_issue e
    then reclassify e load_packages_error
    else if not has_go_mod
    then reclassify e scan_synthetic_module_error
    else e

-- The switch on an error category: that of derrors.LoadPackagesError alone is unrecoverable.
unfoldable pub unrecoverable_error : Text → Bool
unrecoverable_error error_category =
    text_eq error_category (categorize_error (sentinel load_packages_error))
