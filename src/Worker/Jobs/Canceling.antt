-- ===== src/Worker/Jobs/Canceling.antt =====
-- internal/worker/jobs.go with internal/worker/analysis.go: what canceling a job does to its scans,
-- and how requests about a job that does not exist are answered.
use pkgsite_metrics.Prelude.{
  ℕ, ◌≡◌, refl, sym, ◌∙◌, ap, Bool, true, false, Option, none, some, Text, text, text_eq,
  trim_prefix, is_empty,
}
use pkgsite_metrics.Derrors.{
  wrap-none, Err, Kind, Result, ok, err, wrapped, sentinel, not_found, invalid_argument, bad_module,
  wrap, is, same_kind, ◌>>=◌,
}
use pkgsite_metrics.Fstore.{Firestore, decode, get, convert_error}
use pkgsite_metrics.Jobs.{Job, get_job, update_job}
use pkgsite_metrics.Worker.Jobs.{
  Web, Handled, cancel, process_path, process_job_request, handle_jobs, write_json,
}
use pkgsite_metrics.Worker.Analysis.{ScanRequest}
use pkgsite_metrics.Worker.Analysis.Running.{World, Store}
use pkgsite_metrics.Worker.Analysis.Scan.{handle_scan, finishes, is_canceled, handle_parsed}
use pkgsite_metrics.Worker.Server.{
  serve_error, with_status, answer, status_not_found, status_internal_server_error,
}

pair-none : {S : Type 0} (p : S × Option Err) → p.1 ≡ none → p ≡ (p.0, none)
pair-none p h = λ i. (p.0, h i)

canceled-finishes :
    (world : World) (req : ScanRequest) (store : Store)
    → is_empty req.params.job_id ≡ false
    → world.has_job_db ≡ true
    → world.get_job req.params.job_id ≡ ok true
    → handle_scan world (ok req) store ≡ finishes store
unfolding handle_scan handle_parsed is_canceled wrap
canceled-finishes world req store n db c = rw (n, db, c) refl

module _ {R D S : Type 0} (web : Web R) (fs : Firestore Job D S) where
  cancel_path :
      (id : Text) (s : S)
      → is_empty id ≡ false
      → (handle_jobs web fs (text "/jobs/cancel") id s).store ≡ (update_job fs s id cancel).0
  unfolding handle_jobs process_job_request process_path trim_prefix text_eq
  cancel_path id s h = rw h refl

  cancel_error :
      (id : Text) (s : S)
      → is_empty id ≡ false
      → (handle_jobs web fs (text "/jobs/cancel") id s).error
        ≡ wrap (text "Server.handleJobs") (update_job fs s id cancel).1
  unfolding handle_jobs process_job_request process_path trim_prefix text_eq
  cancel_error id s h = rw h refl

  -- The document that a successful update sets.
  update_job-set :
      (id : Text) (s : S) (d : D) (j : Job)
      → fs.get s id ≡ ok d
      → fs.data_to d ≡ ok j
      → (update_job fs s id cancel).1 ≡ none
      → fs.set s id (fs.document (record j { canceled = true }))
        ≡ ((update_job fs s id cancel).0, none)
  unfolding update_job decode convert_error cancel wrap
  update_job-set id s d j g e h =
      rw (g, e) (pair-none _ (wrap-none (text "job.DB.UpdateJob") _ (rw (g, e) at h)))

-- Whether a job is canceled, as a scan asks for it.
abbrev pub canceled_in : {D S : Type 0} → Firestore Job D S → S → Text → Result Bool
canceled_in fs s id = get_job fs s id >>= λ j. ok j.canceled

-- Where a set document is what is got until it is set again, and a document holds its job: when a
-- job exists and the request to cancel it succeeds, the job is canceled and otherwise as it was, and
-- every later scan request of the job does nothing: it counts nothing, writes no row and succeeds.
pub handle_jobs-cancel :
    {R D S : Type 0} (web : Web R) (fs : Firestore Job D S) (id : Text) (s : S) (d : D) (j : Job)
    (world : World) (req : ScanRequest) (store : Store)
    → ((s s' : S) (id : Text) (d : D) → fs.set s id d ≡ (s', none) → fs.get s' id ≡ ok d)
    → ((j : Job) → fs.data_to (fs.document j) ≡ ok j)
    → fs.get s id ≡ ok d
    → fs.data_to d ≡ ok j
    → is_empty id ≡ false
    → (handle_jobs web fs (text "/jobs/cancel") id s).error ≡ none
    → req.params.job_id ≡ id
    → world.has_job_db ≡ true
    → ((i : Text)
        → world.get_job i ≡ canceled_in fs (handle_jobs web fs (text "/jobs/cancel") id s).store i)
    → (get_job fs (handle_jobs web fs (text "/jobs/cancel") id s).store id
        ≡ ok (record j { canceled = true }))
      × (handle_scan world (ok req) store ≡ finishes store)
unfolding get_job get decode convert_error
handle_jobs-cancel web fs id s d j world req store set_law doc_law g e n h ri db wj =
    let failed = sym (cancel_error web fs id s n) ∙ h in
    let set = update_job-set web fs id s d j g e (wrap-none (text "Server.handleJobs") _ failed) in
    let got : get_job fs (handle_jobs web fs (text "/jobs/cancel") id s).store id
        ≡ ok (record j { canceled = true }) =
      rw (cancel_path web fs id s n, set_law s _ id _ set, doc_law (record j { canceled = true }))
        refl in
    (
      got,
      canceled-finishes world req store (ap is_empty ri ∙ n) db
          (ap world.get_job ri ∙ wj id ∙ ap (λ r. r >>= λ j. ok j.canceled) got),
    )

-- The status of the answer to an error.
abbrev pub answered : {S : Type 0} → Handled S → Option ℕ
answered h = elim h.error [ none ↦ none | some e ↦ some (serve_error e).0 ]

not_found_answer :
    (a b c : Text)
    → (serve_error (wrapped a (wrapped b (wrapped c (sentinel not_found))))).0 ≡ status_not_found
unfolding serve_error with_status answer is same_kind
not_found_answer a b c = refl

-- An error that is of none of the kinds, wrapped twice.
plain_answer :
    (e : Err) (a b : Text)
    → ((k : Kind) → is e k ≡ false)
    → (serve_error (wrapped a (wrapped b e))).0 ≡ status_internal_server_error
unfolding serve_error with_status answer is
plain_answer e a b n = rw (n invalid_argument, n not_found, n bad_module) refl

-- Requests about a job that Firestore does not find, with its own error: to describe the job or to
-- read its results is answered with status 404, but to cancel it is answered with status 500.
pub handle_jobs-missing :
    {R D S : Type 0} (web : Web R) (fs : Firestore Job D S) (id : Text) (s : S) (e : Err)
    → fs.get s id ≡ err e
    → fs.status_code e ≡ some 5
    → ((k : Kind) → is e k ≡ false)
    → is_empty id ≡ false
    → (answered (handle_jobs web fs (text "/jobs/describe") id s) ≡ some status_not_found)
      × (answered (handle_jobs web fs (text "/jobs/results") id s) ≡ some status_not_found)
      × (answered (handle_jobs web fs (text "/jobs/cancel") id s)
          ≡ some status_internal_server_error)
unfolding handle_jobs process_job_request process_path trim_prefix text_eq get_job get update_job
    convert_error write_json wrap
handle_jobs-missing web fs id s e g c n h = (
  rw (h, g, c) (ap some (not_found_answer _ _ _)),
  rw (h, g, c) (ap some (not_found_answer _ _ _)),
  rw (h, g) (ap some (plain_answer e _ _ n)),
)
