-- ===== src/Worker/Jobs/Tests.antt =====
-- Tests of the requests about jobs, and the theorems about them at concrete inputs.
use pkgsite_metrics.Prelude.{
  ℕ, ◌≡◌, refl, ap, true, false, List, [], ◌∷◌, map, none, some, Text, text, text_eq, text_eq_refl,
  trim_prefix, if◌then◌else◌,
}
use pkgsite_metrics.Derrors.{Err, Kind, Result, ok, err, plain, is, wrap}
use pkgsite_metrics.Fstore.{Firestore, decode}
use pkgsite_metrics.Jobs.{Job, new_job, get_job, update_job}
use pkgsite_metrics.Worker.Jobs.{Web, cancel, process_path, process_job_request, handle_jobs}
use pkgsite_metrics.Worker.Jobs.Canceling.{canceled_in, handle_jobs-cancel}
use pkgsite_metrics.Worker.Analysis.{ScanRequest}
use pkgsite_metrics.Worker.Analysis.Running.{World}
use pkgsite_metrics.Worker.Analysis.Scan.{handle_scan, finishes}
use pkgsite_metrics.Worker.Analysis.Scan.Tests.{world, request, empty_store}

abbrev Jobs : Type 0
Jobs = List (Text × Job)

abbrev no_document : Err
no_document = plain (text "no such document")

find : Jobs → Text → Result Job
find [] id = err no_document
find ((k, j) ∷ js) id = if text_eq k id then ok j else find js id

abbrev store : Firestore Job Job Jobs
store = record {
  status_code = λ e. some 5;
  data_to = λ j. ok j;
  document = λ j. j;
  get = find;
  create = λ s id j. ((id, j) ∷ s, none);
  set = λ s id j. ((id, j) ∷ s, none);
  delete = λ s id. (s, none);
  increment = λ s id path n. (s, none);
  documents = map (λ p. ok p.1);
  new_client = λ project. ok [];
}

abbrev web : Web ℕ
web = record { encode = λ r. ok (text "{}"); write = λ b. none; read_results = none }

abbrev job : Job
job = new_job (text "me") 3 (text "/enqueue") (text "scan") (text "abc") []

abbrev jobs : Jobs
jobs = (text "me-3", job) ∷ []

find_set : (s s' : Jobs) (id : Text) (j : Job) → store.set s id j ≡ (s', none) → find s' id ≡ ok j
unfolding find
find_set s s' id j h = rw⁻¹ (ap (λ p. p.0) h) (rw (text_eq_refl id) refl)

found : find jobs (text "me-3") ≡ ok job
unfolding find text_eq
found = refl

canceled_without_error :
    (handle_jobs web store (text "/jobs/cancel") (text "me-3") jobs).error ≡ none
unfolding handle_jobs process_job_request process_path trim_prefix text_eq update_job decode cancel
    find wrap
canceled_without_error = refl

abbrev after : Jobs
after = (handle_jobs web store (text "/jobs/cancel") (text "me-3") jobs).store

abbrev scan_world : World
scan_world = record (world none) { get_job = λ i. canceled_in store after i }

abbrev scan_request : ScanRequest
scan_request = record request { params = record (request.params) { job_id = text "me-3" } }

handle_jobs-cancel_example :
    (get_job store after (text "me-3") ≡ ok (record job { canceled = true }))
    × (handle_scan scan_world (ok scan_request) empty_store ≡ finishes empty_store)
handle_jobs-cancel_example =
    handle_jobs-cancel web store (text "me-3") jobs job job scan_world scan_request empty_store
      find_set (λ j. refl) found refl refl canceled_without_error refl refl (λ i. refl)

no_document_plain : (k : Kind) → is no_document k ≡ false
unfolding is
no_document_plain k = refl
