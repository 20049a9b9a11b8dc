-- ===== src/Worker/Modes.antt =====
-- internal/worker/govulncheck_scan.go: what a scan does in each of the two modes, CheckModule and
-- CompareModule. What the request asks of the proxy, the store of work states, the govulncheck
-- command and BigQuery are fields of `World`; `print` is the printing of %d.
pub mod Rows
use pkgsite_metrics.Prelude.{
  ℕ, Bool, true, false, not, List, [], ◌∷◌, Option, none, some, Text, text, text_eq, is_empty,
  if◌then◌else◌,
}
use pkgsite_metrics.Proxy.Kept.{VersionInfo}
use pkgsite_metrics.Derrors.{Err, Result, ok, err}
use pkgsite_metrics.Osv.{Time}
use pkgsite_metrics.Govulncheck.{
  Vuln, WorkVersion, WorkState, Row, AnalysisResponse, Request, work_state, add_error,
}
use pkgsite_metrics.Govulncheck.Findings.{
  scan_mode_source_symbol, scan_mode_source_package, scan_mode_source_module, vulns_for_scan_mode,
}
use pkgsite_metrics.Worker.Classify.{classify_check_error}
use pkgsite_metrics.Worker.Prepare.{
  Tools, prepare_module, Ran, returned, panicked, do_scan, with_cleanup, Output, dropped,
  write_results,
}

abbrev pub mode_govulncheck : Text
mode_govulncheck = text "GOVULNCHECK"

abbrev pub mode_compare : Text
mode_compare = text "COMPARE"

abbrev scan_mode_compare_binary : Text
scan_mode_compare_binary = text "COMPARE - BINARY"

abbrev scan_mode_compare_source : Text
scan_mode_compare_source = text "COMPARE - SOURCE"

-- govulncheck.ComparePair, with the import path that it stands under.
pub record ComparePair : Type 0 where
  pub pkg : Text
  pub binary_results : AnalysisResponse
  pub source_results : AnalysisResponse
  pub error : Text

pub record World : Type 0 where
  -- what dbLastModified and GoEnv give for a new work version
  pub read_work_version : Result WorkVersion
  -- the error of storage.NewClient, which is called if a bucket of binaries is configured
  pub storage_client : Option Err
  pub get_work_state : Text → Text → Result (Option WorkState)
  pub info : Text → Text → Result VersionInfo
  pub tools : Tools
  -- the govulncheck command, by whether it runs insecurely, and the compare command, whose
  -- pairs stand in the order in which the loop meets them
  pub govulncheck : Bool → Ran (Result AnalysisResponse)
  pub compare : Result (List ComparePair)
  -- the error of an upload; `none` without a BigQuery client
  pub upload : List Row → Option (Option Err)
  pub build_seconds : ℕ → ℕ

-- The scan modes of createRows.
unfoldable pub row_scan_modes : Text → List Text
row_scan_modes mode =
    if text_eq mode mode_compare
    then scan_mode_compare_binary ∷ scan_mode_compare_source ∷ []
    else if text_eq mode mode_govulncheck
    then scan_mode_source_symbol ∷ scan_mode_source_package ∷ scan_mode_source_module ∷ []
    else []

-- Both, unless one of them panics.
abbrev pub also : Option Row → Option (List Row) → Option (List Row)
also none rows = none
also (some row) none = none
also (some row) (some rows) = some (row ∷ rows)

-- The loop of createRows; `none` is a panic of `f`.
unfoldable pub rows_of : (Text → Option Row) → List Text → Option (List Row)
rows_of f [] = some []
rows_of f (sm ∷ modes) = also (f sm) (rows_of f modes)

unfoldable pub create_rows : Text → (Text → Option Row) → Option (List Row)
create_rows mode f = rows_of f (row_scan_modes mode)

-- runScanModule: the response, if there is one, and the error.
abbrev ran_response : Ran (Result AnalysisResponse) → Option AnalysisResponse × Ran (Option Err)
ran_response (returned (ok response)) = (some response, returned none)
ran_response (returned (err e)) = (none, returned (some e))
ran_response (panicked t) = (none, panicked t)

abbrev run_prepared : World → Bool → Option Err → Option AnalysisResponse × Ran (Option Err)
run_prepared world insecure (some e) = (none, returned (some e))
run_prepared world insecure none = ran_response (world.govulncheck insecure)

unfoldable pub run_scan_module : World → Bool → Text → Option AnalysisResponse × Option Err
run_scan_module world insecure module_path =
    let (response, ran) =
      run_prepared world insecure (prepare_module world.tools module_path true) in
    (response, do_scan (with_cleanup ran world.tools.remove_all))

-- The closure that CheckModule gives to createRows, on a response or a classified error.
-- `none` is a panic, of a finding with no trace or of a response that is nil.
abbrev with_vulns : Row → Option (List Vuln) → Option Row
with_vulns row none = none
with_vulns row (some vs) = some (record row { vulns = vs })

-- The row of a scan mode; with the time and the memory of the scan, if the mode says so.
abbrev timed : Row → Text → AnalysisResponse → Bool → Row
timed base_row sm response true = record base_row {
  scan_mode = sm;
  scan_seconds = response.stats.scan_seconds;
  scan_memory = response.stats.scan_memory;
}
timed base_row sm response false = record base_row { scan_mode = sm }

unfoldable pub check_row :
    (ℕ → Text) → Row → Option AnalysisResponse → Option Err → Text → Option Row
check_row print base_row response (some e) sm =
    some (add_error (record base_row { scan_mode = sm }) (some e))
check_row print base_row none none sm = none
check_row print base_row (some response) none sm =
    with_vulns (timed base_row sm response (text_eq sm mode_govulncheck))
      (vulns_for_scan_mode print response sm)

abbrev classified : Option Err → Option Err
classified none = none
classified (some e) = some (classify_check_error e)

-- What a handler has done: the rows that it wrote, and how it ends.
abbrev pub Done : Type 0 → Type 0
Done A = Output (List Row) × Ran (Result A)

-- Writing rows; then `next`, if there is no error.
unfoldable pub written : {A : Type 0} → World → Bool → Option (List Row) → A → Done A
written world serve none next = (dropped, panicked (text "index out of range"))
written world serve (some rows) next =
    let (output, e) = write_results serve (world.upload rows) rows in
    (output, returned (elim e [ none ↦ ok next | some x ↦ err x ]))

-- CheckModule returns the WorkState of the base row.
unfoldable pub check_module : (ℕ → Text) → World → Bool → Request → Row → Done (Option WorkState)
check_module print world insecure sreq base_row =
    let (response, e) = run_scan_module world insecure sreq.url_path.module_path in
    let rows = create_rows sreq.params.mode (check_row print base_row response (classified e)) in
    written world sreq.params.serve rows (some (work_state base_row))

-- createComparisonRow; `none` is the panic of vulnsForScanMode.
pub create_comparison_row : (ℕ → Text) → (ℕ → ℕ) → Text → AnalysisResponse → Row → Bool → Option Row
create_comparison_row print build_seconds pkg response base_row binary =
    let row = record base_row {
      suffix = pkg;
      scan_mode = if binary then scan_mode_compare_binary else scan_mode_compare_source;
      binary_build_seconds =
          if binary
          then some (build_seconds response.stats.build_time)
          else base_row.binary_build_seconds;
      scan_memory = response.stats.scan_memory;
      scan_seconds = response.stats.scan_seconds;
    } in
    with_vulns row (vulns_for_scan_mode print response scan_mode_source_symbol)

-- The loop over the pairs. A pair with an error is only logged.
pub comparison_rows : (ℕ → Text) → (ℕ → ℕ) → Row → List ComparePair → Option (List Row)
comparison_rows print build_seconds base_row [] = some []
comparison_rows print build_seconds base_row (results ∷ pairs) =
    let rest = comparison_rows print build_seconds base_row pairs in
    let row = create_comparison_row print build_seconds results.pkg in
    if not (is_empty results.error)
    then rest
    else also (row results.binary_results base_row true)
        (also (row results.source_results base_row false) rest)

-- The function that CompareModule gives to doScan, behind the preparation: what it wrote.
abbrev compare_written : World → Bool → Option (List Row) → Output (List Row)
compare_written world serve none = dropped
compare_written world serve (some []) = dropped
compare_written world serve (some (row ∷ rows)) =
    (write_results serve (world.upload (row ∷ rows)) (row ∷ rows)).0

abbrev compare_prepared :
    (ℕ → Text) → World → Bool → Row → Option Err → Result (List ComparePair) → Output (List Row)
compare_prepared print world serve base_row (some e) pairs = dropped
compare_prepared print world serve base_row none (err e) = dropped
compare_prepared print world serve base_row none (ok pairs) =
    compare_written world serve (comparison_rows print world.build_seconds base_row pairs)

-- CompareModule returns no error: doScan turns a panic into one, and errors are only logged.
unfoldable pub compare_module : (ℕ → Text) → World → Request → Row → Done (Option WorkState)
compare_module print world sreq base_row = (
  compare_prepared print world sreq.params.serve base_row
      (prepare_module world.tools sreq.url_path.module_path true) world.compare,
  returned (ok none),
)
