-- ===== src/Worker/Analysis/Scan/Tests.antt =====
-- A request for a binary that the module was already analyzed with.
use pkgsite_metrics.Prelude.{◌≡◌, refl, true, false, [], ◌∷◌, Option, none, some, text, text_eq}
use pkgsite_metrics.Prelude.Int.{pos}
use pkgsite_metrics.Derrors.{Err, plain, ok, err, wrap, cleanup}
use pkgsite_metrics.Worker.Prepare.{Tools}
use pkgsite_metrics.Worker.Analysis.{ScanRequest, WorkVersion, same_key, same_work}
use pkgsite_metrics.Worker.Analysis.Running.{
  World, Store, stored, stored_or_zero, read_work_version,
}
use pkgsite_metrics.Worker.Analysis.Scan.{
  Counter, num_started, num_skipped, base, hashed, with_binary, run_request, is_canceled,
  handle_parsed, handle_scan, trim_slashes, after_slashes, has_slash,
}
use pkgsite_metrics.Worker.Analysis.Scan.Counters.{reports, handle_scan-counters}

abbrev tools : Tools
tools = record {
  zip = none;
  write_zip = none;
  remove_all = none;
  has_go_mod = true;
  go = λ args. none;
}

abbrev analyzed : WorkVersion
analyzed = record {
  binary_version = text "abc";
  binary_args = [];
  worker_version = text "w1";
  schema_version = text "s1";
}

abbrev pub world : Option Err → World
world remove_error = record {
  has_job_db = true;
  get_job = λ id. ok false;
  copy_binary = none;
  hash_binary = ok (text "abc");
  remove_binary = remove_error;
  version_id = text "w1";
  schema_version = text "s1";
  stored_work_version = some (λ key. ok (some analyzed));
  go_mod_exists = false;
  tools = tools;
  run_binary = λ args. err (plain (text "exit status 1"));
  unmarshal = λ out. ok [];
  info = λ m v. err (plain (text "not found"));
  print = λ n. [];
  open_file = λ f. ok ([], none);
  upload = none;
}

abbrev pub request : ScanRequest
request = record {
  module_path = text "m";
  version = text "v1.0.0";
  suffix = [];
  params = record {
    binary = text "bin";
    binary_version = text "abc";
    args = [];
    imported_by = pos 10;
    insecure = false;
    serve = false;
    job_id = text "j";
    skip_init = false;
  };
}

abbrev pub empty_store : Store
empty_store = []

handle_scan-counters_example :
    (c : Counter) × ((handle_scan (world none) (ok request) empty_store).counters
      ≡ num_started ∷ c ∷ [])
    × (reports c none ≡ true)
unfolding handle_scan handle_parsed is_canceled run_request base trim_slashes after_slashes
    has_slash with_binary hashed read_work_version stored stored_or_zero same_key same_work text_eq
    cleanup wrap
handle_scan-counters_example =
    handle_scan-counters (world none) request empty_store {e = none} refl refl refl refl

abbrev remove_error : Err
remove_error = plain (text "remove bin: permission denied")

skipped_scan :
    (handle_scan (world none) (ok request) empty_store).counters ≡ num_started ∷ num_skipped ∷ []
unfolding handle_scan handle_parsed is_canceled run_request base trim_slashes after_slashes
    has_slash with_binary hashed read_work_version stored stored_or_zero same_key same_work text_eq
    cleanup wrap
skipped_scan = refl
