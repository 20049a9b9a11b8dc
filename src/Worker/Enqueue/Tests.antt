-- ===== src/Worker/Enqueue/Tests.antt =====
-- Two modules, one of them the standard library, and a queue that refuses every task.
use mathlib.Core.List.{Memᴰ}
use pkgsite_metrics.Prelude.{
  length, ℕ, ◌+◌, ap, arith, text_eq_refl, if◌then◌else◌, ◌≡◌, ◌↔◌, refl, Bool, false, List, [],
  ◌∷◌, Option, none, some, Text, text, text_eq,
}
use pkgsite_metrics.Prelude.Int.{ℤ, pos, negsuc}
use pkgsite_metrics.Derrors.{Err, Result, plain, ok, err}
use pkgsite_metrics.Govulncheck.{Request}
use pkgsite_metrics.Worker.Modes.{mode_govulncheck}
use pkgsite_metrics.Worker.Analysis.{ModuleSpec, EnqueueParams, ScanRequest}
use pkgsite_metrics.Worker.Analysis.Scan.{base, trim_slashes, after_slashes, has_slash}
use pkgsite_metrics.Worker.Enqueue.{
  govulncheck_request, mode_tasks, tasks_of, create_govulncheck_queue_tasks, Enqueued,
  handle_enqueue,
}
use pkgsite_metrics.Fstore.{Firestore}
use pkgsite_metrics.Osv.{Time}
use pkgsite_metrics.Jobs.{Job, id, get_job}
use pkgsite_metrics.Worker.Prepare.{returned}
use pkgsite_metrics.Worker.Enqueue.Jobs.{job_of, handle_enqueue-counts}
use pkgsite_metrics.Worker.Enqueue.Tasks.{IsTask, create_govulncheck_queue_tasks-IsTask}

abbrev standard_library : ModuleSpec
standard_library = record {
  module_path = text "std";
  version = text "v1.20.0";
  imported_by = pos 99;
}

abbrev errors : ModuleSpec
errors = record { module_path = text "m/errors"; version = text "v0.9.1"; imported_by = pos 20 }

abbrev modspecs : List ModuleSpec
modspecs = standard_library ∷ errors ∷ []

abbrev request : Request
request = govulncheck_request mode_govulncheck errors

create_govulncheck_queue_tasks-IsTask_example :
    (length (request ∷ []) ≡ 1)
    × (Memᴰ request (request ∷ []) ↔ IsTask (mode_govulncheck ∷ []) modspecs request)
unfolding create_govulncheck_queue_tasks tasks_of mode_tasks text_eq
create_govulncheck_queue_tasks-IsTask_example =
    create_govulncheck_queue_tasks-IsTask modspecs (mode_govulncheck ∷ []) request refl

abbrev refuse : ScanRequest → Bool × Option Err
refuse r = (false, some (plain (text "queue is gone")))

abbrev params : EnqueueParams
params = record {
  binary = text "bin";
  args = [];
  insecure = false;
  min = pos 10;
  file = [];
  suffix = [];
  user = text "u";
  skip_init = false;
}

-- A database of jobs in which an ID is created once.
abbrev Documents : Type 0
Documents = Text → Result Job

abbrev with_document : Documents → Text → Job → Documents
with_document s id j = λ k. if text_eq k id then ok j else s k

abbrev create_new : Documents → Text → Job → Result Job → Documents × Option Err
create_new s id j (ok old) = (s, some (plain (text "already exists")))
create_new s id j (err e) = (with_document s id j, none)

abbrev plus : ℤ → Job → Job
plus (pos n) j = record j { num_enqueued = j.num_enqueued + n }
plus (negsuc n) j = j

abbrev add_to : Documents → Text → ℤ → Result Job → Documents × Option Err
add_to s id n (ok j) = (with_document s id (plus n j), none)
add_to s id n (err e) = (s, some e)

abbrev database : Firestore Job Job Documents
database = record {
  status_code = λ e. some 5;
  data_to = λ j. ok j;
  document = λ j. j;
  get = λ s id. s id;
  create = λ s id j. create_new s id j (s id);
  set = λ s id j. (with_document s id j, none);
  delete = λ s id. (s, none);
  increment = λ s id path n. add_to s id n (s id);
  documents = λ s. [];
  new_client = λ project. err (plain (text "no client"));
}

create_new-kept :
    (s s' : Documents) (key : Text) (j : Job) (r : Result Job)
    → create_new s key j r ≡ (s', none)
    → s' key ≡ ok j
create_new-kept s s' key j (ok old) h = ground (arith, h)
create_new-kept s s' key j (err e) h = rw⁻¹ (ap (λ p. p.0) h) (rw (text_eq_refl key) refl)

add_to-kept :
    (s s' : Documents) (key : Text) (j : Job) (n : ℕ)
    → s key ≡ ok j
    → add_to s key (pos n) (s key) ≡ (s', none)
    → s' key ≡ ok (record j { num_enqueued = j.num_enqueued + n })
add_to-kept s s' key j n e h = rw⁻¹ (ap (λ p. p.0) (rw e at h)) (rw (text_eq_refl key) refl)

abbrev no_documents : Documents
no_documents k = err (plain (text "not found"))

abbrev job : Job
job = job_of params 3 (text "/enqueue") (text "abc")

abbrev format : Time → Text
format t = text "0"

abbrev with_job : Documents
with_job = with_document no_documents (id format job) job

abbrev with_counted_job : Documents
with_counted_job = with_document with_job (id format job) (record job { num_enqueued = 2 })

counts_two :
    add_to with_job (id format job) (pos 2) (with_job (id format job)) ≡ (with_counted_job, none)
unfolding text_eq
counts_two = refl

abbrev enqueued : Enqueued Documents
enqueued =
    handle_enqueue database format refuse (some no_documents) 3 (text "/enqueue") (ok modspecs)
      (ok (text "abc")) (ok params)

handle_enqueue-counts_example :
    (enqueued.result ≡ returned none)
    × (enqueued.job_db ≡ some with_counted_job)
    × (get_job database with_counted_job (id format job) ≡ ok (record job { num_enqueued = 2 }))
unfolding base trim_slashes after_slashes has_slash text_eq
handle_enqueue-counts_example =
    handle_enqueue-counts database format refuse no_documents with_job with_counted_job 3
      (text "/enqueue") (text "abc") modspecs params
      (λ s s' key j. create_new-kept s s' key j (s key)) add_to-kept (λ j. refl) refl refl refl
      counts_two
