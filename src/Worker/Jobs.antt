-- ===== src/Worker/Jobs.antt =====
-- internal/worker/jobs.go: the requests about jobs. JSON, the writing of a response and the reading
-- of results from BigQuery are fields of `Web`.
pub mod Canceling
mod Tests
use pkgsite_metrics.Prelude.{
  Bool, true, List, [], ◌∷◌, ◌++◌, Option, none, some, Text, text, text_eq, is_empty, trim_prefix,
  if◌then◌else◌,
}
use pkgsite_metrics.Derrors.{
  Err, Result, ok, err, plain, wrapped, sentinel, kind_text, server_error, invalid_argument, wrap,
  ◌>>=◌,
}
use pkgsite_metrics.Fstore.{Firestore}
use pkgsite_metrics.Jobs.{Job, get_job, update_job, list_jobs}

-- What a request writes as JSON; `R` is a row of results.
pub data Reply (R : Type 0) : Type 0 where
  job_reply : Job → Reply R
  list_reply : List Job → Reply R
  results_reply : List R → Reply R

pub record Web (R : Type 0) : Type 0 where
  pub encode : Reply R → Result Text
  pub write : Text → Option Err
  -- analysis.ReadResults for a binary, its version and its arguments; `none` without a client
  pub read_results : Option (Text → Text → Text → Result (List R))

-- What a request has done: the database behind it, what it wrote, and its error.
pub record Handled (S : Type 0) : Type 0 where
  pub store : S
  pub body : Option Text
  pub error : Option Err

unfoldable pub cancel : Job → Result Job
cancel j = ok (record j { canceled = true })

-- fmt.Errorf("<what>: %w", derrors.InvalidArgument)
abbrev invalid : Text → Err
invalid what =
    wrapped (what ++ (text ": " ++ kind_text invalid_argument)) (sentinel invalid_argument)

module _ {R D S : Type 0} (web : Web R) (fs : Firestore Job D S) where
  abbrev failed : S → Err → Handled S
  failed s e = record { store = s; body = none; error = some e }

  abbrev encoded : S → Result Text → Handled S
  encoded s (err e) = failed s e
  encoded s (ok b) = record { store = s; body = some b; error = web.write b }

  unfoldable pub write_json : S → Result (Reply R) → Handled S
  write_json s (err e) = failed s e
  write_json s (ok r) = encoded s (web.encode r)

  abbrev results : Option (Text → Text → Text → Result (List R)) → Job → Result (Reply R)
  results none j = err (plain (text "bq client is nil"))
  results (some read) j =
      read j.binary j.binary_version j.binary_args >>= λ rows. ok (results_reply rows)

  abbrev unless_missing : S → Text → Handled S → Handled S
  unless_missing s job_id handled =
      if is_empty job_id then failed s (invalid (text "missing jobid")) else handled

  abbrev canceled : S × Option Err → Handled S
  canceled (s, e) = record { store = s; body = none; error = e }

  unfoldable pub process_path : Text → Text → S → Handled S
  process_path path job_id s =
      if text_eq path (text "describe")
      then unless_missing s job_id (write_json s (get_job fs s job_id >>= λ j. ok (job_reply j)))
      else if text_eq path (text "cancel")
      then unless_missing s job_id (canceled (update_job fs s job_id cancel))
      else if text_eq path (text "list")
      then write_json s
          (list_jobs fs (λ js j. ok (js ++ (j ∷ []))) [] s >>= λ js. ok (list_reply js))
      else if text_eq path (text "results")
      then unless_missing s job_id (write_json s (get_job fs s job_id >>= results web.read_results))
      else failed s (invalid (text "unknown path"))

  unfoldable pub process_job_request : Text → Text → S → Handled S
  process_job_request path job_id s = process_path (trim_prefix path (text "/jobs/")) job_id s

  -- handleJobs, for a server with a database of jobs.
  unfoldable pub handle_jobs : Text → Text → S → Handled S
  handle_jobs path job_id s =
      let h = process_job_request path job_id s in
      record h { error = wrap (text "Server.handleJobs") h.error }

-- handleJobs without a database of jobs.
pub status_not_implemented_error : Option Err
status_not_implemented_error =
    wrap (text "Server.handleJobs")
      (some (server_error 501 (plain (text "jobs DB not configured"))))
