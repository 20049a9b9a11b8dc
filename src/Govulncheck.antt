-- ===== src/Govulncheck.antt =====
-- internal/govulncheckapi and internal/govulncheck: findings, work versions, rows and requests. A
-- float64 is a number, its bits, and so is a memory size: they are only copied. Error texts leave
-- out what they quote of the request.
pub mod Findings
pub mod Requests
pub mod Messages
pub mod States
pub mod Command
use pkgsite_metrics.Prelude.{
  ℕ, Bool, false, ◌&&◌, List, Option, none, some, Text, text_eq, ◌==◌, ◌++◌, ◌∷◌,
}
use pkgsite_metrics.Prelude.Int.{ℤ}
use pkgsite_metrics.Derrors.{Err, message}
use pkgsite_metrics.Derrors.Category.{categorize_error}
use pkgsite_metrics.Osv.{Time, Entry}
use pkgsite_metrics.Scan.ModulePath.{ModuleUrlPath}

abbrev pub Float64 : Type 0
Float64 = ℕ

-- govulncheckapi.Position
pub record Position : Type 0 where
  pub filename : Text
  pub offset : ℤ
  pub line : ℤ
  pub column : ℤ

-- govulncheckapi.Frame
pub record Frame : Type 0 where
  pub module_path : Text
  pub version : Text
  pub package_path : Text
  pub function : Text
  pub receiver : Text
  pub position : Option Position

-- govulncheckapi.Finding
pub record Finding : Type 0 where
  pub osv : Text
  pub fixed_version : Text
  pub trace : List Frame

-- bq.NullString
pub record NullString : Type 0 where
  pub string_val : Text
  pub valid : Bool

pub record Vuln : Type 0 where
  pub id : Text
  pub package_path : Text
  pub module_path : Text
  pub version : Text
  pub review_status : NullString

pub record WorkVersion : Type 0 where
  pub go_version : Text
  pub worker_version : Text
  pub schema_version : Text
  pub vuln_db_last_modified : Time

pub record WorkState : Type 0 where
  pub work_version : Option WorkVersion
  pub error_category : Text

-- govulncheck.Result; the scan mode "COMPARE - BINARY" alone has build seconds.
pub record Row : Type 0 where
  pub created_at : Time
  pub module_path : Text
  pub version : Text
  pub suffix : Text
  pub sort_version : Text
  pub imported_by : ℤ
  pub error : Text
  pub error_category : Text
  pub commit_time : Time
  pub scan_seconds : Float64
  pub binary_build_seconds : Option Float64
  pub scan_memory : ℕ
  pub scan_mode : Text
  pub work_version : WorkVersion
  pub vulns : List Vuln

pub record ScanStats : Type 0 where
  pub scan_seconds : Float64
  pub scan_memory : ℕ
  pub build_time : ℕ

pub record AnalysisResponse : Type 0 where
  pub findings : List Finding
  pub osvs : Text → Option Entry
  pub stats : ScanStats

-- QueryParams; `mode` is empty when the request names none.
pub record QueryParams : Type 0 where
  pub imported_by : ℤ
  pub mode : Text
  pub insecure : Bool
  pub serve : Bool

pub record Request : Type 0 where
  pub url_path : ModuleUrlPath
  pub params : QueryParams

-- WorkVersion.Equal, with `none` for nil.
unfoldable pub work_version_equal : Option WorkVersion → Option WorkVersion → Bool
work_version_equal (some v1) (some v2) =
    text_eq v1.go_version v2.go_version
    && text_eq v1.worker_version v2.worker_version
    && text_eq v1.schema_version v2.schema_version
    && v1.vuln_db_last_modified == v2.vuln_db_last_modified
work_version_equal _ _ = false

-- Result.WorkState
abbrev pub work_state : Row → WorkState
work_state r = record { work_version = some r.work_version; error_category = r.error_category }

-- Result.AddError
abbrev pub add_error : Row → Option Err → Row
add_error r none = r
add_error r (some e) = record r { error = message e; error_category = categorize_error e }

abbrev pub set_upload_time : Row → Time → Row
set_upload_time r t = record r { created_at = t }

-- Request.Name
abbrev pub name : Request → Text
name r = r.url_path.module_path ++ (b'@' ∷ r.url_path.version)
