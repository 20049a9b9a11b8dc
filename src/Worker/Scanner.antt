-- ===== src/Worker/Scanner.antt =====
-- internal/worker/govulncheck_scan.go and internal/worker/govulncheck.go: a govulncheck scan
-- request, from handleScan down to the choice of the mode.
pub mod WorkStates
mod Tests
use pkgsite_metrics.Prelude.{
  ℕ, Bool, true, false, List, [], Option, none, some, Text, text, text_eq, is_empty, if◌then◌else◌,
}
use pkgsite_metrics.Proxy.Kept.{VersionInfo}
use pkgsite_metrics.Derrors.{
  in_context, Err, Result, ok, err, message, reclassify, of_kind, proxy_error, invalid_argument,
  wrap,
}
use pkgsite_metrics.Version.Sorting.{for_sorting}
use pkgsite_metrics.Govulncheck.{
  WorkVersion, WorkState, Row, Request, work_version_equal, add_error,
}
use pkgsite_metrics.Worker.Classify.{unrecoverable_error}
use pkgsite_metrics.Worker.Prepare.{Ran, returned, panicked, Output, dropped}
use pkgsite_metrics.Worker.Modes.{
  mode_govulncheck, mode_compare, World, create_rows, Done, written, check_module, compare_module,
}

-- GovulncheckServer.getWorkVersion, on the cached work version: the new cache and the result.
pub get_work_version :
    Option WorkVersion → Result WorkVersion → Option WorkVersion × Result WorkVersion
get_work_version (some v) read = (some v, ok v)
get_work_version none (ok v) = (some v, ok v)
get_work_version none (err e) = (none, in_context (text "GovulncheckServer.getWorkVersion") (err e))

-- canSkip, on what GetWorkState returns for the module and version.
pub can_skip : WorkVersion → Result (Option WorkState) → Result Bool
can_skip work_version (err e) = err e
can_skip work_version (ok none) = ok false
can_skip work_version (ok (some ws)) =
    if work_version_equal (some work_version) ws.work_version
    then ok true
    else ok (unrecoverable_error ws.error_category)

-- The part of ScanModule behind the proxy's answer.
abbrev scan_mode_module : (ℕ → Text) → World → Bool → Request → Row → Done (Option WorkState)
scan_mode_module print world insecure sreq base_row =
    if text_eq sreq.params.mode mode_compare
    then compare_module print world sreq base_row
    else if text_eq sreq.params.mode mode_govulncheck
    then check_module print world insecure sreq base_row
    else (dropped, returned (ok none))

abbrev sorted_module :
    (ℕ → Text) → World → Bool → Request → Row → Option Text → Done (Option WorkState)
sorted_module print world insecure sreq base_row none =
    (dropped, panicked (text "slice bounds out of range"))
sorted_module print world insecure sreq base_row (some sort_version) =
    scan_mode_module print world insecure sreq (record base_row { sort_version = sort_version })

abbrev with_info :
    (ℕ → Text) → World → Bool → Request → Row → Result VersionInfo → Done (Option WorkState)
with_info print world insecure sreq base_row (err e) =
    written world sreq.params.serve
      (create_rows sreq.params.mode (λ sm.
        some (add_error (record base_row { scan_mode = sm }) (some (reclassify e proxy_error)))))
      none
with_info print world insecure sreq base_row (ok info) =
    sorted_module print world insecure sreq
      (record base_row { version = info.version; commit_time = info.time })
      (for_sorting info.version)

abbrev new_row : Request → WorkVersion → Row
new_row sreq v = record {
  created_at = 0;
  module_path = sreq.url_path.module_path;
  version = [];
  suffix = sreq.url_path.suffix;
  sort_version = [];
  imported_by = sreq.params.imported_by;
  error = [];
  error_category = [];
  commit_time = 0;
  scan_seconds = 0;
  binary_build_seconds = none;
  scan_memory = 0;
  scan_mode = [];
  work_version = v;
  vulns = [];
}

-- ScanModule
pub scan_module : (ℕ → Text) → World → Bool → WorkVersion → Request → Done (Option WorkState)
scan_module print world insecure v sreq =
    if text_eq sreq.url_path.module_path (text "std")
    then (dropped, returned (ok none))
    else with_info print world insecure sreq (new_row sreq v)
        (world.info sreq.url_path.module_path sreq.url_path.version)

-- What a request to handleScan has done: the rows that it wrote, the state that it gave to
-- SetWorkState, whether it was skipped, and its error.
pub record Handled : Type 0 where
  pub output : Output (List Row)
  pub saved : Option WorkState
  pub skipped : Bool
  pub result : Ran (Option Err)

abbrev ended : Ran (Option Err) → Handled
ended r = record { output = dropped; saved = none; skipped = false; result = r }

abbrev failed_with : Err → Handled
failed_with e = ended (returned (wrap (text "handleScan") (some e)))

abbrev after_scan : Done (Option WorkState) → Handled
after_scan (output, returned (ok ws)) = record {
  output = output;
  saved = ws;
  skipped = false;
  result = returned none;
}
after_scan (output, returned (err e)) = record (failed_with e) { output = output }
after_scan (output, panicked t) = record (ended (panicked t)) { output = output }

abbrev scan_unless_skipped : Result Bool → Done (Option WorkState) → Handled
scan_unless_skipped (err e) done = failed_with e
scan_unless_skipped (ok true) done = record (ended (returned none)) { skipped = true }
scan_unless_skipped (ok false) done = after_scan done

abbrev with_default_mode : Request → Request
with_default_mode sreq = record sreq {
  params = record (sreq.params) {
    mode = if is_empty sreq.params.mode then mode_govulncheck else sreq.params.mode;
  };
}

-- The part of handleScan behind the request and the work version.
pub handle_request : (ℕ → Text) → World → Bool → Request → Result WorkVersion → Handled
handle_request print world cfg_insecure sreq (err e) = failed_with e
handle_request print world cfg_insecure sreq (ok v) =
    let insecure = if sreq.params.insecure then true else cfg_insecure in
    scan_unless_skipped
      (can_skip v (world.get_work_state sreq.url_path.module_path sreq.url_path.version))
      (scan_module print world insecure v sreq)

-- newScanner, on the error of the storage client and the result of getWorkVersion, which comes first.
abbrev pub new_scanner : Option Err → Result WorkVersion → Result WorkVersion
new_scanner none v = v
new_scanner (some e) (ok v) = err e
new_scanner (some e) (err e') = err e'

-- handleScan, on the result of ParseRequest and the cached work version: the new cache, and what
-- was done.
unfoldable pub handle_scan :
    (ℕ → Text) → World → Bool → Option WorkVersion → Result Request → Option WorkVersion × Handled
handle_scan print world cfg_insecure cache (err e) =
    (cache, failed_with (of_kind invalid_argument (message e)))
handle_scan print world cfg_insecure cache (ok sreq) =
    let (cache', v) = get_work_version cache world.read_work_version in
    (
      cache',
      handle_request print world cfg_insecure (with_default_mode sreq)
          (new_scanner world.storage_client v),
    )
