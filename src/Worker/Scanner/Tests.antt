-- ===== src/Worker/Scanner/Tests.antt =====
-- A scan whose govulncheck run fails to load the packages of the module.
use pkgsite_metrics.Prelude.{
  ◌∷◌, inl, ℕ, ◌≡◌, refl, true, false, [], Option, none, some, Text, text, text_eq,
}
use pkgsite_metrics.Prelude.Int.{pos}
use pkgsite_metrics.Derrors.{plain, Result, ok, err, wrap, cleanup}
use pkgsite_metrics.Version.Sorting.{for_sorting}
use pkgsite_metrics.Govulncheck.{WorkVersion, WorkState, Request, Row, work_version_equal}
use pkgsite_metrics.Govulncheck.Findings.{
  vulns_for_scan_mode, mode_findings, distinct_vulns, convert_all,
}
use pkgsite_metrics.Worker.Modes.Rows.{AreRowsOf, check_module-AreRowsOf}
use pkgsite_metrics.Worker.Prepare.{
  Tools, returned, do_scan, prepare_module, download, run_go_command, with_cleanup, write_results,
}
use pkgsite_metrics.Worker.Modes.{
  World, check_module, create_rows, rows_of, row_scan_modes, check_row, written, run_scan_module,
}
use pkgsite_metrics.Worker.Scanner.{
  can_skip, handle_scan, handle_request, get_work_version, scan_module,
}
use pkgsite_metrics.Worker.Scanner.WorkStates.{
  skipped_request, handle_scan-saved, handle_scan-again,
}

abbrev tools : Tools
tools = record {
  zip = none;
  write_zip = none;
  remove_all = none;
  has_go_mod = true;
  go = λ args. none;
}

abbrev work_version : WorkVersion
work_version = record {
  go_version = text "go1.20";
  worker_version = text "w1";
  schema_version = text "s1";
  vuln_db_last_modified = 7;
}

abbrev saved_state : WorkState
saved_state = record { work_version = some work_version; error_category = [] }

abbrev world : Result (Option WorkState) → World
world state = record {
  read_work_version = ok work_version;
  storage_client = none;
  get_work_state = λ m v. state;
  info = λ m v. ok (record { version = text "v1.0.0"; time = 3 });
  tools = tools;
  govulncheck = λ insecure. returned (err (plain (text "govulncheck: loading packages: no go")));
  compare = ok [];
  upload = λ rows. none;
  build_seconds = λ n. n;
}

abbrev request : Request
request = record {
  url_path = record { module_path = text "m"; version = text "v1.0.0"; suffix = [] };
  params = record { imported_by = pos 10; mode = []; insecure = false; serve = false };
}

abbrev print : ℕ → Text
print n = []

handle_scan-saved_example :
    (saved_state.error_category ≡ [])
    × (v : WorkVersion) × ((get_work_version none (ok work_version)).1 ≡ ok v)
    × (saved_state.work_version ≡ some v)
    × (can_skip work_version (ok (some saved_state))
        ≡ ok (work_version_equal (some work_version) saved_state.work_version))
unfolding handle_scan handle_request get_work_version can_skip scan_module text_eq for_sorting
    check_module written create_rows rows_of row_scan_modes check_row run_scan_module do_scan
    prepare_module download run_go_command with_cleanup write_results wrap cleanup
handle_scan-saved_example =
    handle_scan-saved print (world (ok none)) false none (ok request) work_version
      {ws = saved_state} refl

handle_scan-again_example :
    (cache' : Option WorkVersion) × ((handle_scan print (world (ok none)) false none (ok request)).0
      ≡ cache')
    × (handle_scan print (world (ok (some saved_state))) false cache' (ok request)
        ≡ (cache', skipped_request))
unfolding handle_scan handle_request get_work_version can_skip scan_module text_eq for_sorting
    check_module written create_rows rows_of row_scan_modes check_row run_scan_module do_scan
    prepare_module download run_go_command with_cleanup write_results wrap cleanup
handle_scan-again_example =
    handle_scan-again print (world (ok none)) (world (ok (some saved_state))) false none request
      {ws = saved_state} refl refl refl

abbrev found_nothing : World
found_nothing = record (world (ok none)) {
  govulncheck = λ insecure. returned (
      ok (record {
        findings = [];
        osvs = λ id. none;
        stats = record { scan_seconds = 0; scan_memory = 0; build_time = 0 };
      }));
}

abbrev serving : Request
serving = record request {
  params = record {
    imported_by = pos 10;
    mode = text "GOVULNCHECK";
    insecure = false;
    serve = true;
  };
}

abbrev row : Text → Row
row scan_mode = record {
  created_at = 0;
  module_path = text "m";
  version = text "v1.0.0";
  suffix = [];
  sort_version = text "1,0,0~";
  imported_by = pos 10;
  error = [];
  error_category = [];
  commit_time = 3;
  scan_seconds = 0;
  binary_build_seconds = none;
  scan_memory = 0;
  scan_mode = scan_mode;
  work_version = work_version;
  vulns = [];
}

check_module-AreRowsOf_example :
    AreRowsOf
      (row (text ""))
      (row_scan_modes (text "GOVULNCHECK"))
      (row (text "GOVULNCHECK") ∷ row (text "IMPORTS") ∷ row (text "REQUIRES") ∷ [])
unfolding check_module create_rows rows_of row_scan_modes check_row written run_scan_module do_scan
    prepare_module download run_go_command with_cleanup write_results wrap cleanup text_eq
    vulns_for_scan_mode mode_findings distinct_vulns convert_all
check_module-AreRowsOf_example =
    check_module-AreRowsOf print found_nothing false serving (row (text ""))
      {rows = row (text "GOVULNCHECK") ∷ row (text "IMPORTS") ∷ row (text "REQUIRES") ∷ []}
      (inl refl)
