-- ===== src/Derrors/Category.antt =====
-- internal/derrors/derrors.go: CategorizeError, and how the functions that add context to an error
-- change its category.
mod Tests
use pkgsite_metrics.Prelude.{
  ◌≡◌, refl, ◌⊎◌, inl, inr, some, Text, arith, if◌then◌else◌, text, List, [], ◌∷◌,
}
use pkgsite_metrics.Derrors.{
  Kind, proxy_error, big_query_error, scan_module_panic_error, scan_module_os_error,
  load_packages_error, load_packages_go_version_error, load_packages_no_go_mod_error,
  load_packages_no_go_sum_error, load_packages_no_required_module_error,
  load_packages_missing_go_sum_entry_error, load_vendor_error, load_packages_synthetic_error,
  load_packages_imported_local_error, scan_module_govulncheck_db_connection_error,
  scan_module_govulncheck_error, scan_synthetic_module_error, scan_module_sandbox_error,
  scan_module_memory_limit_exceeded, scan_module_too_many_open_files, Err, sentinel, is, wrap,
  wrap_stack, reclassify, of_kind,
}

-- The cases of the switch, in order.
abbrev categories : List (Kind × Text)
categories =
    (scan_module_govulncheck_error, text "VULNCHECK - MISC")
    ∷ (scan_module_govulncheck_db_connection_error, text "VULNCHECK - DB CONNECTION")
    ∷ (load_packages_error, text "LOAD")
    ∷ (load_packages_synthetic_error, text "LOAD - SYNTHETIC MODULE")
    ∷ (load_packages_go_version_error, text "LOAD - WRONG GO VERSION")
    ∷ (load_packages_no_go_mod_error, text "LOAD - NO GO.MOD")
    ∷ (load_packages_no_go_sum_error, text "LOAD - NO GO.SUM")
    ∷ (load_packages_no_required_module_error, text "LOAD - NO REQUIRED MODULE")
    ∷ (load_packages_missing_go_sum_entry_error, text "LOAD - NO GO.SUM ENTRY")
    ∷ (load_packages_imported_local_error, text "LOAD - GO.MOD REPLACES WITH A LOCAL PATH")
    ∷ (load_vendor_error, text "VENDOR")
    ∷ (scan_module_os_error, text "OS")
    ∷ (scan_module_panic_error, text "PANIC")
    ∷ (scan_module_memory_limit_exceeded, text "MEM LIMIT EXCEEDED")
    ∷ (scan_module_too_many_open_files, text "TOO MANY OPEN FILES")
    ∷ (scan_module_sandbox_error, text "SANDBOX MISC")
    ∷ (proxy_error, text "PROXY")
    ∷ (big_query_error, text "BIGQUERY")
    ∷ (scan_synthetic_module_error, text "SYNTHETIC - MISC")
    ∷ []

-- The switch: the first case whose error `err` is.
first_category : List (Kind × Text) → Err → Text
first_category [] e = text "MISC"
first_category ((k, c) ∷ cs) e = if is e k then c else first_category cs e

unfoldable pub categorize_error : Err → Text
unfolding first_category
categorize_error e = first_category categories e

is-wrap_stack :
    (context : Text) (e : Err) {f : Err} (k : Kind)
    → wrap_stack context (some e) ≡ some f
    → is f k ≡ is e k
unfolding wrap_stack is
is-wrap_stack context e k h = ground arith

is-wrap :
    (context : Text) (e : Err) {f : Err} (k : Kind)
    → wrap context (some e) ≡ some f
    → is f k ≡ is e k
unfolding wrap is
is-wrap context e k h = ground arith

first_category-eq :
    (cs : List (Kind × Text)) (e f : Err)
    → ((k : Kind) → is f k ≡ is e k)
    → first_category cs f ≡ first_category cs e
unfolding first_category
first_category-eq [] e f h = refl
first_category-eq ((k, c) ∷ cs) e f h = ground (arith, h k, first_category-eq cs e f h)

-- Adding context to an error by Wrap or by WrapStack, with or without a new stack trace, leaves
-- its category as it was, whatever the error and the context are.
pub categorize_error-wrap :
    (context : Text) (e : Err) {f : Err}
    → (wrap context (some e) ≡ some f) ⊎ (wrap_stack context (some e) ≡ some f)
    → categorize_error f ≡ categorize_error e
unfolding categorize_error
categorize_error-wrap context e {f} (inl h) =
    first_category-eq categories e f (λ k. is-wrap context e k h)
categorize_error-wrap context e {f} (inr h) =
    first_category-eq categories e f (λ k. is-wrap_stack context e k h)

-- fmt.Errorf("%v: %w", err, kind) and fmt.Errorf("%w: %v", kind, err) have the category of the
-- kind: the category that the error had before is lost.
pub categorize_error-reclassify :
    (e : Err) (k : Kind) (t : Text)
    → (categorize_error (reclassify e k) ≡ categorize_error (sentinel k))
      × (categorize_error (of_kind k t) ≡ categorize_error (sentinel k))
unfolding categorize_error reclassify of_kind is
categorize_error-reclassify e k t = (refl, refl)
