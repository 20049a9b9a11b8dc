-- ===== src/Govulncheck/Command/Tests.antt =====
-- internal/govulncheck/govulncheck.go: a run of govulncheck with two findings.
use pkgsite_metrics.Prelude.{◌≡◌, refl, [], ◌∷◌, none, some, Text, text}
use pkgsite_metrics.Derrors.{ok, err, plain}
use pkgsite_metrics.Govulncheck.{Finding, AnalysisResponse}
use pkgsite_metrics.Govulncheck.Messages.{Message, handle_json, dispatch}
use pkgsite_metrics.Govulncheck.Command.{
  Process, command_args, osv_of, run_govulncheck_cmd, unmarshal_response,
}
use pkgsite_metrics.Govulncheck.Command.Findings.{all_findings, run_govulncheck_cmd-findings}

abbrev finding : Text → Finding
finding id = record { osv = id; fixed_version = []; trace = [] }

abbrev found : Text → Message Unit Unit
found id = record { config = none; progress = none; osv = none; finding = some (finding id) }

abbrev process : Process Unit Unit
process = record {
  stdout = λ p args. text "{}";
  stderr = λ p args. [];
  failed = λ p args. none;
  decode = λ t. ok (found (text "GO-1")) ∷ ok (found (text "GO-2")) ∷ [];
  stats = record { scan_seconds = 1; scan_memory = 2; build_time = 0 };
}

abbrev response : AnalysisResponse
response = record {
  findings = finding (text "GO-1") ∷ finding (text "GO-2") ∷ [];
  osvs = osv_of [];
  stats = process.stats;
}

run_govulncheck_cmd-findings_example :
    response.findings
    ≡ all_findings (
        process.decode (
          process.stdout
            (text "govulncheck")
            (command_args (text "source") (text "./...") [] (text "/db"))))
unfolding run_govulncheck_cmd handle_json dispatch
run_govulncheck_cmd-findings_example =
    run_govulncheck_cmd-findings process (text "govulncheck") (text "source") (text "./...") []
      (text "/db") response refl

-- The field Error of an output becomes an error.
error_reported :
    unmarshal_response (λ t. ok (text "no go.mod")) (λ t. ok t) (text "{}")
    ≡ err (plain (text "no go.mod"))
unfolding unmarshal_response
error_reported = refl
