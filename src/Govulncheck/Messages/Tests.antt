-- ===== src/Govulncheck/Messages/Tests.antt =====
-- Tests of the handling of messages.
use pkgsite_metrics.Prelude.{ℕ, ◌≡◌, refl, [], ◌∷◌, none, some, text}
use pkgsite_metrics.Derrors.{ok, plain}
use pkgsite_metrics.Govulncheck.{Finding}
use pkgsite_metrics.Govulncheck.Messages.{
  Message, Handler, dispatch, handle_json, MetricsHandler, new_metrics_handler, metrics_handler,
}

abbrev finding : Finding
finding = record { osv = text "GO-1"; fixed_version = []; trace = [] }

abbrev message : Message ℕ ℕ
message = record { config = some 1; progress = none; osv = none; finding = some finding }

two_findings :
    (handle_json metrics_handler (ok message ∷ ok message ∷ []) new_metrics_handler).0.findings
    ≡ finding ∷ finding ∷ []
unfolding handle_json dispatch
two_findings = refl

-- A handler that refuses configurations only.
abbrev strict : Handler ℕ ℕ MetricsHandler
strict = record metrics_handler { on_config = λ c h. (h, some (plain (text "bad config"))) }

-- The error of one part of a message is lost when another part follows it.
error_lost : (handle_json strict (ok message ∷ []) new_metrics_handler).1 ≡ none
unfolding handle_json dispatch
error_lost = refl
