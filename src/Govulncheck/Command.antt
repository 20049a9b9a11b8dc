-- ===== src/Govulncheck/Command.antt =====
-- internal/govulncheck/govulncheck.go: running the govulncheck command, and what a command in the
-- sandbox prints. The process, JSON and the clock are fields of `Process`.
pub mod Findings
mod Tests
use pkgsite_metrics.Prelude.{
  ℕ, List, [], ◌∷◌, ◌++◌, Option, none, some, Text, text, text_eq, is_empty, if◌then◌else◌,
}
use pkgsite_metrics.Derrors.{Err, Result, ok, err, plain, ◌>>=◌}
use pkgsite_metrics.Osv.{Entry}
use pkgsite_metrics.Govulncheck.{Finding, ScanStats, AnalysisResponse}
use pkgsite_metrics.Govulncheck.Messages.{
  Message, handle_json, MetricsHandler, new_metrics_handler, metrics_handler,
}

-- The texts of the two outputs of a process, its error, and the decoding of a stream of messages.
pub record Process (C P : Type 0) : Type 0 where
  pub stdout : Text → List Text → Text
  pub stderr : Text → List Text → Text
  pub failed : Text → List Text → Option Err
  pub decode : Text → List (Result (Message C P))
  pub stats : ScanStats

-- The URI of the database, on a system other than Windows.
unfoldable pub command_args : Text → Text → Text → Text → List Text
command_args mode_flag pattern module_dir vulndb_dir =
    (text "-mode" ∷ mode_flag ∷ text "-json" ∷ text "-db" ∷ (text "file://" ++ vulndb_dir) ∷ [])
    ++ ((if is_empty module_dir then [] else text "-C" ∷ module_dir ∷ []) ++ (pattern ∷ []))

unfoldable pub osv_of : List (Text × Entry) → Text → Option Entry
osv_of [] id = none
osv_of ((i, e) ∷ osvs) id = let rest = osv_of osvs id in if text_eq i id then some e else rest

abbrev pub response_of : ScanStats → MetricsHandler × Option Err → Result AnalysisResponse
response_of stats (h, some e) = err e
response_of stats (h, none) =
    ok (record { findings = h.findings; osvs = osv_of h.osvs; stats = stats })

abbrev pub read_output :
    {C P : Type 0} → Process C P → Text → List Text → Option Err → Result AnalysisResponse
read_output process path args (some e) = err (plain (process.stderr path args))
read_output process path args none =
    response_of process.stats
      (handle_json metrics_handler (process.decode (process.stdout path args)) new_metrics_handler)

unfoldable pub run_govulncheck_cmd :
    {C P : Type 0} → Process C P → Text → Text → Text → Text → Text → Result AnalysisResponse
run_govulncheck_cmd process govulncheck_path mode_flag pattern module_dir vulndb_dir =
    let args = command_args mode_flag pattern module_dir vulndb_dir in
    read_output process govulncheck_path args (process.failed govulncheck_path args)

-- UnmarshalAnalysisResponse and UnmarshalCompareResponse: the field Error of the output, and the
-- output as a value.
unfoldable pub unmarshal_response :
    {A : Type 0} → (Text → Result Text) → (Text → Result A) → Text → Result A
unmarshal_response error_field decode out =
    error_field out >>= λ e. (if is_empty e then decode out else err (plain e))
