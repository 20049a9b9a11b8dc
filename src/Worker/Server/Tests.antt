-- ===== src/Worker/Server/Tests.antt =====
-- Answers to errors, and a server process at its limit.
use pkgsite_metrics.Prelude.{
  ℕ, ◌+◌, ◌≡◌, refl, true, false, List, [], map, none, text, take, length, ltb, replicate,
}
use pkgsite_metrics.Derrors.{
  Err, plain, wrapped, of_kind, message, wrap, kind_text, not_found, invalid_argument, ok, err,
}
use pkgsite_metrics.Worker.Prepare.{returned}
use pkgsite_metrics.Worker.Modes.{World}
use pkgsite_metrics.Worker.Scanner.{handle_scan}
use pkgsite_metrics.Worker.Server.{serve_error, serve_all, req_limit, status_bad_request}
use pkgsite_metrics.Worker.Server.Answers.{handle_scan-bad_request, serve_all-limit}

abbrev missing : Err
missing = of_kind not_found (text "no module")

abbrev world : World
world = record {
  read_work_version = err (plain (text "no database"));
  storage_client = none;
  get_work_state = λ m v. ok none;
  info = λ m v. err (plain (text "not found"));
  tools = record {
    zip = none;
    write_zip = none;
    remove_all = none;
    has_go_mod = true;
    go = λ args. none;
  };
  govulncheck = λ insecure. returned (err (plain (text "exit status 1")));
  compare = ok [];
  upload = λ rows. none;
  build_seconds = λ n. n;
}

abbrev parse_error : Err
parse_error = plain (text "invalid path: missing '@'")

abbrev answered_error : Err
answered_error =
    wrapped (text "handleScan: invalid argument: invalid path: missing '@'")
      (of_kind invalid_argument (text "invalid path: missing '@'"))

handle_scan-bad_request_example : (serve_error answered_error).0 ≡ status_bad_request
unfolding handle_scan wrap message of_kind kind_text
handle_scan-bad_request_example =
    handle_scan-bad_request (λ n. []) world false none parse_error {f = answered_error} refl

abbrev numbers : List ℕ
numbers = replicate 252 7

serve_all-limit_example :
    serve_all (λ n. n + 1) numbers 0
    ≡ (map (λ n. n + 1) (take (req_limit + 1) numbers), ltb (req_limit + 1) (length numbers))
serve_all-limit_example = serve_all-limit (λ n. n + 1) numbers
