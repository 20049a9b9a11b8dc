-- ===== src/Worker/Analysis.antt =====
-- internal/analysis/analysis.go, and the tasks of internal/worker/analysis.go: requests to run an
-- analysis binary on a module, the diagnostics that it gives, and the rows of the analysis table.
-- A map from strings is a list of its entries in the order of its sorted keys.
pub mod Positions
pub mod Running
pub mod Scan
use pkgsite_metrics.Prelude.{
  ℕ, Bool, false, ◌&&◌, List, [], ◌∷◌, ◌++◌, map, Option, none, some, Text, text_eq,
}
use pkgsite_metrics.Prelude.Int.{ℤ}
use pkgsite_metrics.Derrors.{Err, message}
use pkgsite_metrics.Derrors.Category.{categorize_error}
use pkgsite_metrics.Osv.{Time}
use pkgsite_metrics.Govulncheck.{NullString}

pub record ScanParams : Type 0 where
  pub binary : Text
  pub binary_version : Text
  pub args : Text
  pub imported_by : ℤ
  pub insecure : Bool
  pub serve : Bool
  pub job_id : Text
  pub skip_init : Bool

pub record ScanRequest : Type 0 where
  pub module_path : Text
  pub version : Text
  pub suffix : Text
  pub params : ScanParams

pub record EnqueueParams : Type 0 where
  pub binary : Text
  pub args : Text
  pub insecure : Bool
  pub min : ℤ
  pub file : Text
  pub suffix : Text
  pub user : Text
  pub skip_init : Bool

-- scan.ModuleSpec
pub record ModuleSpec : Type 0 where
  pub module_path : Text
  pub version : Text
  pub imported_by : ℤ

-- ScanRequest.Name
abbrev pub request_name : ScanRequest → Text
request_name r = r.params.binary ++ (b'_' ∷ (r.module_path ++ (b'@' ∷ r.version)))

-- The suggested fixes of a diagnostic are ignored by the worker, and left out.
pub record JsonDiagnostic : Type 0 where
  pub category : Text
  pub posn : Text
  pub msg : Text

-- DiagnosticsOrError: its error, if there is one, or else the diagnostics.
pub data DiagnosticsOrError : Type 0 where
  diagnostics : List JsonDiagnostic → DiagnosticsOrError
  json_error : Text → DiagnosticsOrError

abbrev pub JsonTree : Type 0
JsonTree = List (Text × List (Text × DiagnosticsOrError))

pub record Diagnostic : Type 0 where
  pub package_id : Text
  pub analyzer_name : Text
  pub error : Text
  pub category : Text
  pub position : Text
  pub msg : Text
  pub source : NullString

pub record WorkVersion : Type 0 where
  pub binary_version : Text
  pub binary_args : Text
  pub worker_version : Text
  pub schema_version : Text

-- `==` on work versions.
pub same_work : WorkVersion → WorkVersion → Bool
same_work v w =
    text_eq v.binary_version w.binary_version
    && text_eq v.binary_args w.binary_args
    && text_eq v.worker_version w.worker_version
    && text_eq v.schema_version w.schema_version

pub record WorkVersionKey : Type 0 where
  pub module_path : Text
  pub version : Text
  pub binary : Text

pub same_key : WorkVersionKey → WorkVersionKey → Bool
same_key k l =
    text_eq k.module_path l.module_path && text_eq k.version l.version && text_eq k.binary l.binary

-- analysis.Result
pub record Row : Type 0 where
  pub created_at : Time
  pub module_path : Text
  pub version : Text
  pub sort_version : Text
  pub commit_time : Time
  pub binary_name : Text
  pub error : Text
  pub error_category : Text
  pub work_version : WorkVersion
  pub diagnostics : List Diagnostic

-- Result.AddError
abbrev pub add_error : Row → Option Err → Row
add_error r none = r
add_error r (some e) = record r { error = message e; error_category = categorize_error e }

abbrev no_source : NullString
no_source = record { string_val = []; valid = false }

abbrev error_diagnostic : Text → Text → Text → Diagnostic
error_diagnostic pkg_id a_name e = record {
  package_id = pkg_id;
  analyzer_name = a_name;
  error = e;
  category = [];
  position = [];
  msg = [];
  source = no_source;
}

abbrev found_diagnostic : Text → Text → JsonDiagnostic → Diagnostic
found_diagnostic pkg_id a_name jd = record {
  package_id = pkg_id;
  analyzer_name = a_name;
  error = [];
  category = jd.category;
  position = jd.posn;
  msg = jd.msg;
  source = no_source;
}

analyzer_diagnostics : Text → Text → DiagnosticsOrError → List Diagnostic
analyzer_diagnostics pkg_id a_name (json_error e) = error_diagnostic pkg_id a_name e ∷ []
analyzer_diagnostics pkg_id a_name (diagnostics ds) = map (found_diagnostic pkg_id a_name) ds

package_diagnostics : Text → List (Text × DiagnosticsOrError) → List Diagnostic
package_diagnostics pkg_id [] = []
package_diagnostics pkg_id ((a_name, d) ∷ amap) =
    analyzer_diagnostics pkg_id a_name d ++ package_diagnostics pkg_id amap

pub json_tree_to_diagnostics : JsonTree → List Diagnostic
json_tree_to_diagnostics [] = []
json_tree_to_diagnostics ((pkg_id, amap) ∷ tree) =
    package_diagnostics pkg_id amap ++ json_tree_to_diagnostics tree

abbrev analysis_task : EnqueueParams → Text → Text → ModuleSpec → ScanRequest
analysis_task params job_id binary_version m = record {
  module_path = m.module_path;
  version = m.version;
  suffix = [];
  params = record {
    binary = params.binary;
    binary_version = binary_version;
    args = params.args;
    imported_by = m.imported_by;
    insecure = params.insecure;
    serve = false;
    job_id = job_id;
    skip_init = params.skip_init;
  };
}

unfoldable pub create_analysis_queue_tasks :
    EnqueueParams → Text → Text → List ModuleSpec → List ScanRequest
create_analysis_queue_tasks params job_id binary_version [] = []
create_analysis_queue_tasks params job_id binary_version (m ∷ mods) =
    analysis_task params job_id binary_version m
    ∷ create_analysis_queue_tasks params job_id binary_version mods
