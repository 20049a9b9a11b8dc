-- ===== src/Govulncheck/Command/Findings.antt =====
-- internal/govulncheck/govulncheck.go: what RunGovulncheckCmd keeps of the messages.
use pkgsite_metrics.Prelude.{
  ◌≡◌, refl, sym, ap, ◌∙◌, List, [], ◌∷◌, ◌++◌, append_assoc, append-nil, Option, none, some, Text,
}
use pkgsite_metrics.Derrors.{Err, Result, ok, err, ok-value}
use pkgsite_metrics.Govulncheck.{Finding, ScanStats, AnalysisResponse}
use pkgsite_metrics.Govulncheck.Messages.{
  Message, handle_json, dispatch, MetricsHandler, new_metrics_handler, metrics_handler, after, part,
}
use pkgsite_metrics.Govulncheck.Command.{
  Process, command_args, run_govulncheck_cmd, read_output, response_of,
}

-- The findings of a stream of messages.
abbrev pub finding_list : Option Finding → List Finding
finding_list none = []
finding_list (some f) = f ∷ []

abbrev pub all_findings : {C P : Type 0} → List (Result (Message C P)) → List Finding
all_findings [] = []
all_findings (err e ∷ msgs) = all_findings msgs
all_findings (ok msg ∷ msgs) = finding_list msg.finding ++ all_findings msgs

part-kept :
    {A : Type 0} (f : A → MetricsHandler → MetricsHandler × Option Err)
    → ((a : A) (h : MetricsHandler) → ((f a h).1 ≡ none) × ((f a h).0.findings ≡ h.findings))
    → (o : Option A) (r : MetricsHandler × Option Err) → r.1 ≡ none
    → ((part f o r).1 ≡ none) × ((part f o r).0.findings ≡ r.0.findings)
part-kept f keeps none (h, e) n = (n, refl)
part-kept f keeps (some a) (h, e) n = keeps a h

finding-added :
    (o : Option Finding) (r : MetricsHandler × Option Err)
    → r.1 ≡ none
    → let done = part (metrics_handler {C = Unit} {P = Unit}).on_finding o r in
      (done.1 ≡ none) × (done.0.findings ≡ r.0.findings ++ finding_list o)
finding-added none (h, e) n = (n, sym (append-nil h.findings))
finding-added (some f) (h, e) n = (refl, refl)

dispatch-findings :
    {C P : Type 0} (msg : Message C P) (h : MetricsHandler)
    → ((dispatch metrics_handler msg h).1 ≡ none)
      × ((dispatch metrics_handler msg h).0.findings ≡ h.findings ++ finding_list msg.finding)
unfolding dispatch
dispatch-findings {C} {P} msg h =
    let to = metrics_handler {C = C} {P = P} in
    let first = part-kept to.on_config (λ c k. (refl, refl)) msg.config (h, none) refl in
    let second = part-kept to.on_progress (λ c k. (refl, refl)) msg.progress _ first.0 in
    let third = part-kept to.on_osv (λ c k. (refl, refl)) msg.osv _ second.0 in
    let last = finding-added msg.finding _ third.0 in
    (last.0, last.1 ∙ ap (λ z. z ++ finding_list msg.finding) (third.1 ∙ (second.1 ∙ first.1)))

after-value :
    (C P : Type 0) (r : MetricsHandler × Option Err)
    (rest : MetricsHandler → MetricsHandler × Option Err)
    → r.1 ≡ none
    → after (metrics_handler {C = C} {P = P}) r rest ≡ rest r.0
after-value C P (h, none) rest e = refl
after-value C P (h, some x) rest e = cc

handle_json-findings :
    {C P : Type 0} (msgs : List (Result (Message C P))) (h : MetricsHandler)
    → (handle_json metrics_handler msgs h).1 ≡ none
    → (handle_json metrics_handler msgs h).0.findings ≡ h.findings ++ all_findings msgs
unfolding handle_json
handle_json-findings [] h e = sym (append-nil h.findings)
handle_json-findings (err x ∷ msgs) h e = cc
handle_json-findings {C} {P} (ok msg ∷ msgs) h e =
    let (fine, kept) = dispatch-findings msg h in
    let went =
      after-value C P (dispatch metrics_handler msg h) (handle_json metrics_handler msgs) fine in
    let next = (dispatch metrics_handler msg h).0 in
    ap (λ r. r.0.findings) went
    ∙ (handle_json-findings msgs next (sym (ap (λ r. r.1) went) ∙ e)
        ∙ (ap (λ z. z ++ all_findings msgs) kept
            ∙ append_assoc h.findings (finding_list msg.finding) (all_findings msgs)))

response-findings :
    (stats : ScanStats) (r : MetricsHandler × Option Err) (res : AnalysisResponse)
    → response_of stats r ≡ ok res
    → (r.1 ≡ none) × (res.findings ≡ r.0.findings)
response-findings stats (h, none) res e = (refl, ap (λ a. a.findings) (sym (ok-value e)))
response-findings stats (h, some x) res e = cc

no_failure :
    {C P : Type 0} (process : Process C P) (path : Text) (args : List Text) (o : Option Err)
    {res : AnalysisResponse}
    → read_output process path args o ≡ ok res
    → response_of process.stats (
        handle_json metrics_handler (process.decode (process.stdout path args)) new_metrics_handler)
      ≡ ok res
no_failure process path args none e = e
no_failure process path args (some x) e = cc

-- The response of a run of govulncheck that succeeds has exactly the findings of the messages that
-- the process has written, in their order.
pub run_govulncheck_cmd-findings :
    {C P : Type 0} (process : Process C P) (path mode_flag pattern module_dir vulndb_dir : Text)
    (res : AnalysisResponse)
    → run_govulncheck_cmd process path mode_flag pattern module_dir vulndb_dir ≡ ok res
    → res.findings
      ≡ all_findings (
          process.decode
            (process.stdout path (command_args mode_flag pattern module_dir vulndb_dir)))
unfolding run_govulncheck_cmd
run_govulncheck_cmd-findings process path mode_flag pattern module_dir vulndb_dir res e =
    let args = command_args mode_flag pattern module_dir vulndb_dir in
    let msgs = process.decode (process.stdout path args) in
    let (fine, same) =
      response-findings process.stats _ res
        (no_failure process path args (process.failed path args) e) in
    same ∙ handle_json-findings msgs new_metrics_handler fine
