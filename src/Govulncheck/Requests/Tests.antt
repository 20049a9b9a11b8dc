-- ===== src/Govulncheck/Requests/Tests.antt =====
-- The round trip of a scan request at a concrete one.
use pkgsite_metrics.Prelude.{◌≡◌, refl, true, false, ◌++◌, some, Text, text}
use pkgsite_metrics.Prelude.Int.{pos}
use pkgsite_metrics.Derrors.{ok}
use pkgsite_metrics.Govulncheck.{Request}
use pkgsite_metrics.Govulncheck.Requests.{request_path, request_params, parse_request}
use pkgsite_metrics.Govulncheck.Requests.RoundTrip.{parse_request-request_path}
use pkgsite_metrics.Scan.ModulePath.Tests.{parsed, module_path-IsModulePath, version-IsVersion}
use pkgsite_metrics.Scan.Params.Tests.{conv, form, conv-IsFaithful, form-query}

abbrev sreq : Request
sreq = record {
  url_path = parsed;
  params = record { imported_by = pos 12; mode = text "COMPARE"; insecure = false; serve = true };
}

parse_request-request_path_example :
    (q : Text) × (request_params conv sreq ≡ some q)
    × (parse_request conv (form q) (text "/scan/" ++ request_path sreq) (text "/scan/") ≡ ok sreq)
parse_request-request_path_example =
    parse_request-request_path conv form (text "/scan/") sreq conv-IsFaithful form-query
      module_path-IsModulePath version-IsVersion (12, refl) refl
