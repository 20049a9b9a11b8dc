-- ===== src/Govulncheck/States.antt =====
-- internal/govulncheck/govulncheck.go: the work states in Firestore. url.PathEscape is a parameter.
pub mod Stored
mod Tests
use pkgsite_metrics.Prelude.{Bool, List, ◌∷◌, ◌++◌, Option, none, some, Text, text, if◌then◌else◌}
use pkgsite_metrics.Derrors.{Err, Result, ok, err, is, not_found, in_context, ◌>>=◌}
use pkgsite_metrics.Fstore.{Firestore, get, set}
use pkgsite_metrics.Govulncheck.{WorkState}

-- Without a document there is no work state, and no error.
abbrev pub state_of : Result WorkState → Result (Option WorkState)
state_of (ok ws) = ok (some ws)
state_of (err e) = if is e not_found then ok none else err e

module _ {D S : Type 0} (fs : Firestore WorkState D S) (path_escape : Text → Text) where
  unfoldable pub doc_name : Text → Text → Text
  doc_name module_path version = path_escape (module_path ++ (b'@' ∷ version))

  unfoldable pub set_work_state : S → Text → Text → WorkState → S × Option Err
  set_work_state s module_path version ws = set fs s (doc_name module_path version) ws

  unfoldable pub get_work_state : S → Text → Text → Result (Option WorkState)
  get_work_state s module_path version =
      in_context (text "ReadWorkState") (state_of (get fs s (doc_name module_path version)))
