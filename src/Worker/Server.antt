-- ===== src/Worker/Server.antt =====
-- internal/worker/server.go: how the server answers an error of a handler, and the limit on the
-- scan requests of one server process.
pub mod Answers
mod Tests
use pkgsite_metrics.Prelude.{
  ℕ, zero, suc, ◌+◌, ◌%◌, ◌^◌, Bool, true, false, List, [], ◌∷◌, Option, none, some, Text, ltb,
  if◌then◌else◌,
}
use pkgsite_metrics.Derrors.{
  Kind, Err, server_error, message, is, invalid_argument, not_found, bad_module,
}

abbrev pub status_ok : ℕ
status_ok = 200

abbrev pub status_bad_request : ℕ
status_bad_request = 400

abbrev pub status_not_found : ℕ
status_not_found = 404

abbrev pub status_not_acceptable : ℕ
status_not_acceptable = 406

abbrev pub status_internal_server_error : ℕ
status_internal_server_error = 500

-- One of the tests of serveError: an error of the kind becomes a serverError.
unfoldable pub with_status : Kind → ℕ → Err → Err
with_status k status e = if is e k then server_error status e else e

-- The end of serveError: the status and the body that http.Error writes.
unfoldable pub answer : Err → ℕ × Text
answer (server_error status e) = (status, message e)
answer e = (status_internal_server_error, message e)

unfoldable pub serve_error : Err → ℕ × Text
serve_error e = answer (
    with_status bad_module status_not_acceptable
      (with_status not_found status_not_found (with_status invalid_argument status_bad_request e)))

pub translate_status : ℕ → ℕ
translate_status zero = status_ok
translate_status (suc n) = suc n

-- The status of the response to a request, which `handle` logs: `written` is the status that the
-- handler wrote, or 0, and the error is the handler's.
pub handle : ℕ → Option Err → ℕ
handle written none = translate_status written
handle written (some e) = translate_status (serve_error e).0

abbrev pub req_limit : ℕ
req_limit = 250

-- reqMonitorHandler, on the number of requests so far; `none` is the exit of the process.
pub req_monitor_handler {ℓ κ} : {R : Type ℓ} {A : Type κ} → (R → A) → ℕ → R → Option (ℕ × A)
req_monitor_handler h reqs r = if ltb req_limit reqs then none else some ((reqs + 1) % 2 ^ 64, h r)

-- The requests that a server process is sent, one behind the other: their answers, and whether
-- the process exits.
abbrev answered {ℓ} : {A : Type ℓ} → Option (ℕ × A) → (ℕ → List A × Bool) → List A × Bool
answered none rest = ([], true)
answered (some (reqs, a)) rest = (a ∷ (rest reqs).0, (rest reqs).1)

pub serve_all {ℓ κ} : {R : Type ℓ} {A : Type κ} → (R → A) → List R → ℕ → List A × Bool
serve_all h [] reqs = ([], false)
serve_all h (r ∷ rs) reqs = answered (req_monitor_handler h reqs r) (serve_all h rs)
