-- ===== src/Govulncheck/Findings.antt =====
-- internal/govulncheck/govulncheck.go: ConvertGovulncheckFinding, and vulnsForScanMode of
-- internal/worker/govulncheck_scan.go.
pub mod Modes
mod Tests
use pkgsite_metrics.Prelude.{
  ℕ, Bool, false, ◌&&◌, ◌||◌, not, List, [], ◌∷◌, Option, none, some, Text, text, text_eq, is_empty,
  if◌then◌else◌,
}
use pkgsite_metrics.Osv.{Entry}
use pkgsite_metrics.Osv.ReviewStatus.{string}
use pkgsite_metrics.Govulncheck.{Frame, Finding, Vuln, AnalysisResponse}

abbrev pub scan_mode_source_symbol : Text
scan_mode_source_symbol = text "GOVULNCHECK"

abbrev pub scan_mode_source_package : Text
scan_mode_source_package = text "IMPORTS"

abbrev pub scan_mode_source_module : Text
scan_mode_source_module = text "REQUIRES"

-- `print` is the printing of a number by %d.
module _ (print : ℕ → Text) where
  -- The text of the review status of an entry that may be missing, or have no such field.
  abbrev reviewed : Option Entry → Text
  reviewed none = text ""
  reviewed (some o) = elim o.database_specific [
    | none ↦ text ""
    | some d ↦ string print d.review_status
  ]

  -- The frame is f.Trace[0].
  pub convert_govulncheck_finding : Finding → Frame → Option Entry → Vuln
  convert_govulncheck_finding f vulnerable_frame o = record {
    id = f.osv;
    package_path = vulnerable_frame.package_path;
    module_path = vulnerable_frame.module_path;
    version = vulnerable_frame.version;
    review_status = record { string_val = reviewed o; valid = not (is_empty (reviewed o)) };
  }

-- The case of the switch on the scan mode, for the first frame of a finding.
pub in_mode : Text → Frame → Bool
in_mode scan_mode fr =
    if text_eq scan_mode scan_mode_source_symbol
    then not (is_empty fr.function)
    else if text_eq scan_mode scan_mode_source_package
    then not (is_empty fr.package_path) && is_empty fr.function
    else if text_eq scan_mode scan_mode_source_module
    then is_empty fr.package_path && is_empty fr.function
    else false

-- The first loop: the findings of the mode, each with its first frame. `none` is the panic of
-- f.Trace[0] on an empty trace.
abbrev add_finding :
    Text → Finding → List Frame → Option (List (Finding × Frame)) → Option (List (Finding × Frame))
add_finding scan_mode f [] rest = none
add_finding scan_mode f (fr ∷ trace) none = none
add_finding scan_mode f (fr ∷ trace) (some rest) =
    some (if in_mode scan_mode fr then (f, fr) ∷ rest else rest)

unfoldable pub mode_findings : Text → List Finding → Option (List (Finding × Frame))
mode_findings scan_mode [] = some []
mode_findings scan_mode (f ∷ findings) =
    add_finding scan_mode f f.trace (mode_findings scan_mode findings)

-- Go's == on Vuln, which the keys of the map `seen` are compared by.
pub vuln_eq : Vuln → Vuln → Bool
vuln_eq v w =
    text_eq v.id w.id
    && text_eq v.package_path w.package_path
    && text_eq v.module_path w.module_path
    && text_eq v.version w.version
    && text_eq v.review_status.string_val w.review_status.string_val
    && (if v.review_status.valid then w.review_status.valid else not w.review_status.valid)

pub was_seen : List Vuln → Vuln → Bool
was_seen [] v = false
was_seen (w ∷ seen) v = vuln_eq w v || was_seen seen v

-- The second loop, over the converted findings.
unfoldable pub distinct_vulns : List Vuln → List Vuln → List Vuln
distinct_vulns seen [] = []
distinct_vulns seen (v ∷ vs) =
    if was_seen seen v then distinct_vulns seen vs else v ∷ distinct_vulns (v ∷ seen) vs

unfoldable pub convert_all : (ℕ → Text) → (Text → Option Entry) → List (Finding × Frame) → List Vuln
convert_all print osvs [] = []
convert_all print osvs ((f, fr) ∷ findings) =
    convert_govulncheck_finding print f fr (osvs f.osv) ∷ convert_all print osvs findings

abbrev collect :
    (ℕ → Text) → (Text → Option Entry) → Option (List (Finding × Frame)) → Option (List Vuln)
collect print osvs none = none
collect print osvs (some findings) = some (distinct_vulns [] (convert_all print osvs findings))

unfoldable pub vulns_for_scan_mode : (ℕ → Text) → AnalysisResponse → Text → Option (List Vuln)
vulns_for_scan_mode print response scan_mode =
    collect print response.osvs (mode_findings scan_mode response.findings)
