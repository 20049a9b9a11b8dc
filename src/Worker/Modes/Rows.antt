-- ===== src/Worker/Modes/Rows.antt =====
-- internal/worker/govulncheck_scan.go: the rows that CheckModule writes.
use pkgsite_metrics.Prelude.{
  ℕ, ◌≡◌, refl, sym, ◌⊎◌, Bool, true, false, List, [], ◌∷◌, Option, none, some, Text, text_eq,
  arith, subst,
}
use pkgsite_metrics.Derrors.{Err}
use pkgsite_metrics.Govulncheck.{
  Row, Vuln, AnalysisResponse, Request, WorkState, add_error, work_state,
}
use pkgsite_metrics.Govulncheck.Findings.{vulns_for_scan_mode}
use pkgsite_metrics.Worker.Prepare.{served, uploaded, write_results}
use pkgsite_metrics.Worker.Modes.{
  World, mode_govulncheck, check_row, timed, with_vulns, also, rows_of, row_scan_modes, create_rows,
  written, check_module, run_scan_module, classified,
}

-- A row of a scan mode for the module, version and work version of the base row.
pub record IsRowOf (base_row : Row) (scan_mode : Text) (row : Row) : Type 0 where
  pub in_mode : row.scan_mode ≡ scan_mode
  pub same_module : row.module_path ≡ base_row.module_path
  pub same_version : row.version ≡ base_row.version
  pub same_work_version : row.work_version ≡ base_row.work_version

with_vulns-IsRowOf :
    (base_row : Row) (sm : Text) (row : Row) (vs : Option (List Vuln)) {r : Row}
    → IsRowOf base_row sm row
    → with_vulns row vs ≡ some r
    → IsRowOf base_row sm r
with_vulns-IsRowOf base_row sm row none p h = ground (arith, h)
with_vulns-IsRowOf base_row sm row (some vs) {r} p h =
    let same : record row { vulns = vs } ≡ r = cc in
    subst (λ x. IsRowOf base_row sm x) same
      (record {
        in_mode = p.in_mode;
        same_module = p.same_module;
        same_version = p.same_version;
        same_work_version = p.same_work_version;
      })

in_scan_mode-IsRowOf :
    (base_row : Row) (sm : Text) → IsRowOf base_row sm (record base_row { scan_mode = sm })
in_scan_mode-IsRowOf base_row sm = record {
  in_mode = refl;
  same_module = refl;
  same_version = refl;
  same_work_version = refl;
}

timed-IsRowOf :
    (base_row : Row) (sm : Text) (response : AnalysisResponse) (b : Bool)
    → IsRowOf base_row sm (timed base_row sm response b)
timed-IsRowOf base_row sm response true = record {
  in_mode = refl;
  same_module = refl;
  same_version = refl;
  same_work_version = refl;
}
timed-IsRowOf base_row sm response false = in_scan_mode-IsRowOf base_row sm

check_row-IsRowOf :
    (print : ℕ → Text) (base_row : Row) (response : Option AnalysisResponse) (e : Option Err)
    (sm : Text) {r : Row}
    → check_row print base_row response e sm ≡ some r
    → IsRowOf base_row sm r
unfolding check_row
check_row-IsRowOf print base_row response (some e) sm {r} h =
    let same : add_error (record base_row { scan_mode = sm }) (some e) ≡ r = cc in
    subst (λ x. IsRowOf base_row sm x) same
      (record { in_mode = refl; same_module = refl; same_version = refl; same_work_version = refl })
check_row-IsRowOf print base_row none none sm h = ground (arith, h)
check_row-IsRowOf print base_row (some response) none sm h =
    with_vulns-IsRowOf base_row sm (timed base_row sm response (text_eq sm mode_govulncheck))
      (vulns_for_scan_mode print response sm)
      (timed-IsRowOf base_row sm response (text_eq sm mode_govulncheck)) h

-- One row for each of the scan modes, in their order.
pub data AreRowsOf (base_row : Row) : List Text → List Row → Type 0 where
  no_rows : AreRowsOf base_row [] []
  one_more :
      {sm : Text} {row : Row} {modes : List Text} {rows : List Row}
      → IsRowOf base_row sm row
      → AreRowsOf base_row modes rows
      → AreRowsOf base_row (sm ∷ modes) (row ∷ rows)

also-some :
    (o : Option Row) (os : Option (List Row)) {rows : List Row}
    → also o os ≡ some rows
    → (r : Row) × (rest : List Row) × (o ≡ some r) × (os ≡ some rest) × (rows ≡ r ∷ rest)
also-some none os h = ground (arith, h)
also-some (some r) none h = ground (arith, h)
also-some (some r) (some rest) h = (r, rest, refl, refl, cc)

rows_of-AreRowsOf :
    (print : ℕ → Text) (base_row : Row) (response : Option AnalysisResponse) (e : Option Err)
    (modes : List Text) {rows : List Row}
    → rows_of (check_row print base_row response e) modes ≡ some rows
    → AreRowsOf base_row modes rows
unfolding rows_of
rows_of-AreRowsOf print base_row response e [] {rows} h =
    let same : [] ≡ rows = cc in subst (λ x. AreRowsOf base_row [] x) same no_rows
rows_of-AreRowsOf print base_row response e (sm ∷ modes) {rows} h =
    let (r, rest, first, others, same) =
      also-some (check_row print base_row response e sm)
        (rows_of (check_row print base_row response e) modes) h in
    subst (λ x. AreRowsOf base_row (sm ∷ modes) x) (sym same)
      (one_more (check_row-IsRowOf print base_row response e sm first)
        (rows_of-AreRowsOf print base_row response e modes others))

written_rows :
    (world : World) (serve : Bool) (made : Option (List Row)) (next : Option WorkState)
    {rows : List Row}
    → ((written world serve made next).0 ≡ served rows)
      ⊎ ((written world serve made next).0 ≡ uploaded rows)
    → made ≡ some rows
unfolding written write_results
written_rows world serve made next h = ground (arith, h)

-- The rows that CheckModule serves or uploads are one for each scan mode of the request's mode, in
-- order, each for the module, the version and the work version of the base row, whether the scan
-- had an error or not.
pub check_module-AreRowsOf :
    (print : ℕ → Text) (world : World) (insecure : Bool) (sreq : Request) (base_row : Row)
    {rows : List Row}
    → ((check_module print world insecure sreq base_row).0 ≡ served rows)
      ⊎ ((check_module print world insecure sreq base_row).0 ≡ uploaded rows)
    → AreRowsOf base_row (row_scan_modes sreq.params.mode) rows
unfolding check_module create_rows
check_module-AreRowsOf print world insecure sreq base_row h =
    let (response, e) = run_scan_module world insecure sreq.url_path.module_path in
    rows_of-AreRowsOf print base_row response (classified e) (row_scan_modes sreq.params.mode) (
      written_rows world sreq.params.serve
        (rows_of (check_row print base_row response (classified e))
          (row_scan_modes sreq.params.mode))
        (some (work_state base_row)) h)
