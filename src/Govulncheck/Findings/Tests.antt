-- ===== src/Govulncheck/Findings/Tests.antt =====
-- A response with two findings of one called symbol, and one of an imported package.
use mathlib.Core.List.{Memᴰ}
use pkgsite_metrics.Prelude.{
  ℕ, ◌+◌, ◌≡◌, refl, ◌↔◌, false, [], ◌∷◌, none, some, Text, text, text_eq,
}
use pkgsite_metrics.Govulncheck.{Frame, Finding, Vuln, AnalysisResponse}
use pkgsite_metrics.Govulncheck.Findings.{
  scan_mode_source_symbol, scan_mode_source_package, scan_mode_source_module,
  convert_govulncheck_finding, in_mode, mode_findings, vuln_eq, was_seen, distinct_vulns,
  convert_all, vulns_for_scan_mode,
}
use pkgsite_metrics.Govulncheck.Findings.Modes.{
  Distinct, IsModeFinding, one_if, in_mode_partition, vulns_for_scan_mode-vulns,
}

abbrev frame : Text → Frame
frame function = record {
  module_path = text "m";
  version = text "v1.0.0";
  package_path = text "m/p";
  function = function;
  receiver = text "";
  position = none;
}

abbrev finding : Text → Finding
finding function = record {
  osv = text "GO-1";
  fixed_version = text "";
  trace = frame function ∷ [];
}

abbrev response : AnalysisResponse
response = record {
  findings = finding (text "") ∷ finding (text "F") ∷ finding (text "F") ∷ [];
  osvs = λ id. none;
  stats = record { scan_seconds = 0; scan_memory = 0; build_time = 0 };
}

abbrev print : ℕ → Text
print n = []

abbrev called : Vuln
called = record {
  id = text "GO-1";
  package_path = text "m/p";
  module_path = text "m";
  version = text "v1.0.0";
  review_status = record { string_val = []; valid = false };
}

one_symbol_vuln : vulns_for_scan_mode print response scan_mode_source_symbol ≡ some (called ∷ [])
unfolding vulns_for_scan_mode mode_findings in_mode convert_all convert_govulncheck_finding
    distinct_vulns was_seen vuln_eq text_eq
one_symbol_vuln = refl

vulns_for_scan_mode-vulns_example :
    Distinct (called ∷ [])
    × ((v : Vuln)
        → Memᴰ v (called ∷ []) ↔ (
            (f : Finding) × (fr : Frame) × IsModeFinding scan_mode_source_symbol response.findings f
              fr
            × (v ≡ convert_govulncheck_finding print f fr (response.osvs f.osv))))
vulns_for_scan_mode-vulns_example =
    vulns_for_scan_mode-vulns print response scan_mode_source_symbol one_symbol_vuln

in_mode_partition_example :
    one_if (in_mode scan_mode_source_symbol (frame (text "F")))
      + one_if (in_mode scan_mode_source_package (frame (text "F")))
      + one_if (in_mode scan_mode_source_module (frame (text "F")))
    ≡ 1
in_mode_partition_example = in_mode_partition (frame (text "F"))
