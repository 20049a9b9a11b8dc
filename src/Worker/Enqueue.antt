-- ===== src/Worker/Enqueue.antt =====
-- internal/worker/enqueue.go, internal/worker/govulncheck_enqueue.go and the enqueue handler of
-- internal/worker/analysis.go: a request that makes one scan task per module. The tasks are
-- enqueued by goroutines, which only count their outcomes: the counts do not depend on the order.
pub mod Jobs
pub mod Tasks
mod Tests
use pkgsite_metrics.Prelude.{
  ℕ, suc, ◌+◌, ◌-◌, Bool, true, false, not, ◌&&◌, ◌||◌, List, [], ◌∷◌, ◌++◌, length, filter_by,
  Option, none, some, Text, text, text_eq, is_empty, leb, if◌then◌else◌,
}
use pkgsite_metrics.Prelude.Int.{ℤ, pos}
use pkgsite_metrics.Derrors.{
  in_context, Err, Result, ok, err, plain, wrapped, message, wrap, of_kind, invalid_argument, ◌>>=◌,
}
use pkgsite_metrics.Fstore.{Firestore}
use pkgsite_metrics.Jobs.{Job, new_job, id, create_job, delete_job, increment}
use pkgsite_metrics.Osv.{Time}
use pkgsite_metrics.Worker.Prepare.{Ran, returned, panicked}
use pkgsite_metrics.Govulncheck.{Request}
use pkgsite_metrics.Worker.Modes.{mode_govulncheck, mode_compare}
use pkgsite_metrics.Worker.Analysis.{
  ModuleSpec, EnqueueParams, ScanRequest, create_analysis_queue_tasks,
}
use pkgsite_metrics.Worker.Analysis.Scan.{base}

-- govulncheck.EnqueueQueryParams
pub record EnqueueQueryParams : Type 0 where
  pub suffix : Text
  pub mode : Text
  pub min : ℤ
  pub file : Text

-- The keys of the map of modes.
abbrev pub modes : List Text
modes = mode_compare ∷ mode_govulncheck ∷ []

is_mode : List Text → Text → Bool
is_mode [] mode = false
is_mode (m ∷ ms) mode = text_eq m mode || is_mode ms mode

-- strings.ToUpper, of ASCII text.
to_upper : Text → Text
to_upper [] = []
to_upper (c ∷ s) = (if leb b'a' c && leb c b'z' then c - 32 else c) ∷ to_upper s

pub govulncheck_mode : Text → Result Text
govulncheck_mode [] = ok mode_govulncheck
govulncheck_mode (c ∷ s) =
    let mode = to_upper (c ∷ s) in
    if not (is_mode modes mode) then err (plain (text "unsupported mode")) else ok mode

abbrev one_mode : Result Text → Result (List Text)
one_mode (ok mode) = ok (mode ∷ [])
one_mode (err e) = err e

pub list_modes : Text → Bool → Result (List Text)
list_modes mode_param true =
    if not (is_empty mode_param)
    then err (plain (text "mode query param provided for enqueueAll"))
    else ok (filter_by (λ k. not (text_eq k mode_compare)) modes)
list_modes mode_param false = one_mode (govulncheck_mode mode_param)

abbrev pub govulncheck_request : Text → ModuleSpec → Request
govulncheck_request mode ms = record {
  url_path = record { module_path = ms.module_path; version = ms.version; suffix = [] };
  params = record { imported_by = ms.imported_by; mode = mode; insecure = false; serve = false };
}

-- moduleSpecsToGovulncheckScanRequests, and the loop that leaves the standard library out.
pub mode_tasks : Text → List ModuleSpec → List Request
mode_tasks mode [] = []
mode_tasks mode (ms ∷ modspecs) =
    let rest = mode_tasks mode modspecs in
    if not (text_eq ms.module_path (text "std")) then govulncheck_request mode ms ∷ rest else rest

pub tasks_of : List Text → List ModuleSpec → List Request
tasks_of [] modspecs = []
tasks_of (mode ∷ ms) modspecs = mode_tasks mode modspecs ++ tasks_of ms modspecs

-- createGovulncheckQueueTasks; `modspecs` is what readModules gives, if there is a mode at all.
pub create_govulncheck_queue_tasks : Result (List ModuleSpec) → List Text → Result (List Request)
create_govulncheck_queue_tasks modspecs [] = ok []
create_govulncheck_queue_tasks modspecs (mode ∷ ms) =
    in_context (text "createGovulncheckQueueTasks")
      (modspecs >>= λ specs. ok (tasks_of (mode ∷ ms) specs))

-- What the goroutines of enqueueTasks count.
pub record Counts : Type 0 where
  pub n_enqueued : ℕ
  pub n_errors : ℕ

abbrev counted : Bool × Option Err → Counts → Counts
counted (enqueued, some e) counts = record counts { n_errors = suc counts.n_errors }
counted (true, none) counts = record counts { n_enqueued = suc counts.n_enqueued }
counted (false, none) counts = counts

pub count_enqueued {ℓ} : {T : Type ℓ} → (T → Bool × Option Err) → List T → Counts
count_enqueued enqueue_scan [] = record { n_enqueued = 0; n_errors = 0 }
count_enqueued enqueue_scan (t ∷ tasks) =
    counted (enqueue_scan t) (count_enqueued enqueue_scan tasks)

-- enqueueTasks: the counts are logged, and the error is nil.
pub enqueue_tasks {ℓ} : {T : Type ℓ} → (T → Bool × Option Err) → List T → Counts × Option Err
enqueue_tasks enqueue_scan tasks =
    (count_enqueued enqueue_scan tasks, wrap (text "enqueueTasks") none)

abbrev enqueue_made :
    (Request → Bool × Option Err) → Result (List Request) → Option Counts × Option Err
enqueue_made enqueue_scan (err e) = (none, some e)
enqueue_made enqueue_scan (ok tasks) =
    let (counts, e) = enqueue_tasks enqueue_scan tasks in (some counts, e)

abbrev with_modes :
    (Request → Bool × Option Err)
    → Result (List ModuleSpec)
    → Result (List Text)
    → Option Counts × Option Err
with_modes enqueue_scan modspecs (err e) = (none, some (of_kind invalid_argument (message e)))
with_modes enqueue_scan modspecs (ok ms) =
    enqueue_made enqueue_scan (create_govulncheck_queue_tasks modspecs ms)

-- GovulncheckServer.enqueue, on the result of ParseParams.
pub enqueue :
    (Request → Bool × Option Err)
    → Result (List ModuleSpec)
    → Result EnqueueQueryParams
    → Bool
    → Option Counts × Option Err
enqueue enqueue_scan modspecs (err e) all_modes =
    (none, some (of_kind invalid_argument (message e)))
enqueue enqueue_scan modspecs (ok params) all_modes =
    with_modes enqueue_scan modspecs (list_modes params.mode all_modes)

-- What the enqueue request of an analysis has done: the counts of its tasks, the documents of the
-- jobs after it, if there is a database, and its end. A panic is the use of a missing database.
pub record Enqueued (S : Type 0) : Type 0 where
  pub counts : Option Counts
  pub job_db : Option S
  pub result : Ran (Option Err)

module _ {D S : Type 0} (fs : Firestore Job D S) (format : Time → Text)
    (enqueue_scan : ScanRequest → Bool × Option Err) where
  abbrev pub stops : Option S → Err → Enqueued S
  stops db e = record {
    counts = none;
    job_db = db;
    result = returned (wrap (text "analysisServer.handleEnqueue") (some e));
  }

  abbrev invalid : Option S → Text → Enqueued S
  invalid db t = stops db (of_kind invalid_argument t)

  abbrev no_database : Option Counts → Enqueued S
  no_database counts = record {
    counts = counts;
    job_db = none;
    result = panicked (text "nil pointer dereference");
  }

  -- DeleteJob, whose error is only logged.
  abbrev failed : Option S → Text → Counts → Err → Enqueued S
  failed none job_id counts e = no_database (some counts)
  failed (some s) job_id counts e =
      record (stops (some (delete_job fs s job_id).0)
        (wrapped (text "enequeue failed: " ++ message e) e)) { counts = some counts }

  -- The number of the tasks is added to NumEnqueued; the error of Increment is dropped.
  abbrev counted_tasks : Option S → Text → ℕ → Counts → Enqueued S
  counted_tasks none [] n counts = record {
    counts = some counts;
    job_db = none;
    result = returned none;
  }
  counted_tasks none (c ∷ job_id) n counts = no_database (some counts)
  counted_tasks (some s) [] n counts = record {
    counts = some counts;
    job_db = some s;
    result = returned none;
  }
  counted_tasks (some s) (c ∷ job_id) n counts = record {
    counts = some counts;
    job_db = some (increment fs s (c ∷ job_id) (text "NumEnqueued") (pos n)).0;
    result = returned none;
  }

  -- The end of handleEnqueue, on the counts and the error of enqueueTasks.
  abbrev finish : Option S → Text → ℕ → Counts × Option Err → Enqueued S
  finish db job_id n (counts, some e) = failed db job_id counts e
  finish db job_id n (counts, none) = counted_tasks db job_id n counts

  abbrev enqueue_modules : Option S → EnqueueParams → Text → Text → List ModuleSpec → Enqueued S
  enqueue_modules db params job_id binary_hash mods =
      let tasks = create_analysis_queue_tasks params job_id binary_hash mods in
      finish db job_id (length tasks) (enqueue_tasks enqueue_scan tasks)

  -- The job of a user. When it cannot be created, which only the response says, its ID stays.
  abbrev with_job : Option S → EnqueueParams → Job → Text → List ModuleSpec → Enqueued S
  with_job none params job binary_hash mods = no_database none
  with_job (some s) params job binary_hash mods =
      enqueue_modules (some (create_job fs format s job).0) params (id format job) binary_hash mods

  abbrev hashed :
      Option S → Time → Text → EnqueueParams → Result (List ModuleSpec) → Result Text → Enqueued S
  hashed db now url params mods (err e) = stops db e
  hashed db now url params (err e) (ok binary_hash) = stops db e
  hashed db now url params (ok mods) (ok binary_hash) =
      if is_empty params.user
      then enqueue_modules db params [] binary_hash mods
      else with_job db params (new_job params.user now url params.binary binary_hash params.args)
          binary_hash mods

  -- analysisServer.handleEnqueue, on the result of ParseParams: `hash` is what opening and hashing
  -- the binary gives, and `url` that of the request. The text of the response is left out.
  unfoldable pub handle_enqueue :
      Option S
      → Time
      → Text
      → Result (List ModuleSpec)
      → Result Text
      → Result EnqueueParams
      → Enqueued S
  handle_enqueue db now url mods hash (err e) = invalid db (message e)
  handle_enqueue db now url mods hash (ok params) =
      if is_empty params.binary
      then invalid db (text "analysis: missing binary")
      else if not (text_eq params.binary (base params.binary))
      then invalid db (text "analysis: binary name contains slashes (must be a basename)")
      else hashed db now url params mods hash
