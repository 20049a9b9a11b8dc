-- ===== src/Worker/Analysis/Scan.antt =====
-- internal/worker/analysis.go: the request that runs an analysis binary on a module, with the
-- counters of its job.
pub mod Counters
pub mod Tests
use pkgsite_metrics.Prelude.{
  Bool, false, not, ◌&&◌, ◌||◌, List, [], ◌∷◌, ◌++◌, Option, none, some, Text, text, text_eq,
  is_empty, ◌==◌, if◌then◌else◌,
}
use pkgsite_metrics.Derrors.{
  Err, Result, ok, err, message, of_kind, wrap, cleanup, invalid_argument,
}
use pkgsite_metrics.Worker.Prepare.{Ran, returned, panicked, Output, dropped}
use pkgsite_metrics.Worker.Analysis.{ScanRequest, WorkVersion, WorkVersionKey, same_work, Row}
use pkgsite_metrics.Worker.Analysis.Running.{
  World, Store, stored_or_zero, read_work_version, scan, write_result,
}

-- The counters of jobs.Job that a scan increments.
pub data Counter : Type 0 where
  num_started num_skipped num_failed num_errored num_succeeded : Counter

-- path.Base
unfoldable pub trim_slashes : Text → Text
trim_slashes [] = []
trim_slashes (c ∷ s) =
    let rest = trim_slashes s in if is_empty rest && c == b'/' then [] else c ∷ rest

unfoldable pub has_slash : Text → Bool
has_slash [] = false
has_slash (c ∷ s) = c == b'/' || has_slash s

unfoldable pub after_slashes : Text → Text
after_slashes [] = []
after_slashes (c ∷ s) =
    let rest = after_slashes s in if has_slash s then rest else if c == b'/' then s else c ∷ s

abbrev or_slash : Text → Text
or_slash [] = text "/"
or_slash (c ∷ s) = c ∷ s

unfoldable pub base : Text → Text
base [] = text "."
base (c ∷ s) = or_slash (after_slashes (trim_slashes (c ∷ s)))

-- What a request has done: the counters that it incremented in the job, in order, where its row
-- went, the map of work versions, and how it ends.
pub record Handled : Type 0 where
  pub counters : List Counter
  pub output : Output Row
  pub store : Store
  pub result : Ran (Option Err)

abbrev pub fails : Store → Err → Handled
fails store e = record {
  counters = [];
  output = dropped;
  store = store;
  result = returned (some e);
}

abbrev result_counter : Row → Option Err → List Counter
result_counter row (some e) = []
result_counter row none = if not (is_empty row.error) then num_errored ∷ [] else num_succeeded ∷ []

abbrev wrote : Store → Row → Output Row × Option Err → Handled
wrote store row (output, e) = record {
  counters = result_counter row e;
  output = output;
  store = store;
  result = returned e;
}

abbrev scanned : World → ScanRequest → Store → Option Row → Handled
scanned world req store none = record {
  counters = [];
  output = dropped;
  store = store;
  result = panicked (text "slice bounds out of range");
}
scanned world req store (some row) =
    wrote store row (write_result req.params.serve world.upload row)

abbrev skips : Store → Handled
skips store = record {
  counters = num_skipped ∷ [];
  output = dropped;
  store = store;
  result = returned none;
}

abbrev after_read :
    World → ScanRequest → WorkVersion → WorkVersionKey → Store × Option Err → Handled
after_read world req wv key (store, some e) = fails store e
after_read world req wv key (store, none) =
    if same_work wv (stored_or_zero store key)
    then skips store
    else scanned world req store (scan world req wv)

abbrev work_version_of : World → ScanRequest → Text → WorkVersion
work_version_of world req binary_hash = record {
  binary_version = binary_hash;
  binary_args = req.params.args;
  worker_version = world.version_id;
  schema_version = world.schema_version;
}

abbrev key_of : ScanRequest → WorkVersionKey
key_of req = record {
  module_path = req.module_path;
  version = req.version;
  binary = req.params.binary;
}

abbrev hash_mismatch : Err
hash_mismatch = of_kind invalid_argument (text "analysis: hash does not match")

abbrev hash_matches : World → ScanRequest → Store → Text → Handled
hash_matches world req store binary_hash =
    after_read world req (work_version_of world req binary_hash) (key_of req)
      (read_work_version world.stored_work_version store (key_of req))

pub hashed : World → ScanRequest → Store → Result Text → Handled
hashed world req store (err e) = fails store e
hashed world req store (ok binary_hash) =
    if not (text_eq binary_hash req.params.binary_version)
    then fails store hash_mismatch
    else hash_matches world req store binary_hash

-- The deferred removal of the binary. A panic has left the error nil.
abbrev pub removed : Option Err → Handled → Handled
removed e h = record h {
  result = elim h.result [ returned e' ↦ returned (cleanup e' e) | panicked t ↦ panicked t ];
}

-- The error that the deferred functions see behind the removal of the binary.
abbrev pub seen_error : Option Err → Handled → Option Err
seen_error e h = elim h.result [ returned e' ↦ cleanup e' e | panicked t ↦ e ]

-- The deferred functions behind the copy of the binary; then the one that counts failures.
abbrev failure_counter : Option Err → List Counter
failure_counter none = []
failure_counter (some e) = num_failed ∷ []

abbrev count_failure : Option Err → Handled → Handled
count_failure e h = record h { counters = h.counters ++ failure_counter e }

pub with_binary : World → ScanRequest → Store → Handled
with_binary world req store =
    let h = hashed world req store world.hash_binary in
    count_failure (seen_error world.remove_binary h) (removed world.remove_binary h)

abbrev copied : World → ScanRequest → Store → Option Err → Handled
copied world req store (some e) = count_failure (some e) (fails store e)
copied world req store none = with_binary world req store

abbrev bad_request : Text → Store → Handled
bad_request t store =
    count_failure (some (of_kind invalid_argument t)) (fails store (of_kind invalid_argument t))

-- The part behind the increment of NumStarted.
pub run_request : World → ScanRequest → Store → Handled
run_request world req store =
    if not (is_empty req.suffix)
    then bad_request (text "analysis: only implemented for whole modules (no suffix)") store
    else if is_empty req.params.binary
    then bad_request (text "analysis: missing binary") store
    else if not (text_eq req.params.binary (base req.params.binary))
    then bad_request (text "analysis: binary name contains slashes (must be a basename)") store
    else copied world req store world.copy_binary

-- incrementJob does nothing for a request without a job; its own errors are only logged.
abbrev pub has_job : World → ScanRequest → Bool
has_job world req = not (is_empty req.params.job_id) && world.has_job_db

-- The deferred derrors.Wrap.
abbrev with_context : Ran (Option Err) → Ran (Option Err)
with_context (returned e) = returned (wrap (text "analysisServer.handleScan") e)
with_context (panicked t) = panicked t

abbrev in_handle_scan : Handled → Handled
in_handle_scan h = record h { result = with_context h.result }

unfoldable pub is_canceled : World → ScanRequest → Bool
is_canceled world req =
    has_job world req
    && elim (world.get_job req.params.job_id) [ err e ↦ false | ok canceled ↦ canceled ]

abbrev pub finishes : Store → Handled
finishes store = record { counters = []; output = dropped; store = store; result = returned none }

unfoldable pub handle_parsed : World → ScanRequest → Store → Handled
handle_parsed world req store =
    let h = run_request world req store in
    if is_canceled world req
    then finishes store
    else record h { counters = if has_job world req then num_started ∷ h.counters else [] }

-- handleScan, on the result of ParseScanRequest.
unfoldable pub handle_scan : World → Result ScanRequest → Store → Handled
handle_scan world (err e) store =
    in_handle_scan (fails store (of_kind invalid_argument (message e)))
handle_scan world (ok req) store = in_handle_scan (handle_parsed world req store)
