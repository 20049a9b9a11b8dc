-- ===== src/Ejobs/Show.antt =====
-- cmd/ejobs/main.go: doShow, doList, doCancel and doResults.
use pkgsite_metrics.Prelude.{
  ◌+◌, ◌*◌, Bool, not, ◌&&◌, List, [], ◌∷◌, ◌++◌, Option, none, some, Text, text, ltb, trim_prefix,
  is_empty, if◌then◌else◌,
}
use pkgsite_metrics.Derrors.{Err, Result, ok, err, plain, message, join}
use pkgsite_metrics.Osv.{Time}
use pkgsite_metrics.Jobs.{Job, num_finished}
use pkgsite_metrics.Ejobs.{
  Act, Env, Event, Outcome, ◌>>=◌, ◌>>◌, gave, fail, failed, crashed, running, emit, print, done,
  check, dereference, created, wrote, http_get, request_json, describe_path, worker_path,
}

-- The fields of a job, each with its name without a leading `Num`.
abbrev pub print_fields : List (Text × Text) → Act Unit
print_fields [] = done
print_fields ((name, value) ∷ fs) = do
  print (trim_prefix name (text "Num") ++ (text ": " ++ value))
  print_fields fs

unfoldable pub show_job : Env → Text → Act Unit
show_job env job_id = do
  job ← request_json env.decode_job env (describe_path job_id)
  if env.dry_run then done else (dereference job >>= λ j. print_fields (env.fields_of j))

unfoldable pub show_jobs : Env → List Text → Act Unit
show_jobs env [] = done
show_jobs env (job_id ∷ args) = do show_job env job_id; show_jobs env args

unfoldable pub do_show : Env → List Text → Act Unit
do_show env args = do check env.identity_tokens; show_jobs env args

-- A time is a number of nanoseconds here. A job that started a week before now or earlier is left
-- out.
abbrev pub week : Time
week = 7 * 24 * 3600 * 1000000000

abbrev pub is_recent : Env → Job → Bool
is_recent env job = ltb env.now (job.started_at + week)

unfoldable pub list_rows : Env → List Job → Act Unit
list_rows env [] = done
list_rows env (job ∷ jobs) =
    let rest = list_rows env jobs in
    if is_recent env job then (do print (env.row_of job); rest) else rest

abbrev header : Text
header = text "ID\tUser\tStart Time\tStarted\tFinished\tTotal\tCanceled\n"

unfoldable pub do_list : Env → List Text → Act Unit
do_list env args = do
  check env.identity_tokens
  jobs ← request_json env.decode_jobs env (text "jobs/list")
  if env.dry_run then done else (do print header; dereference jobs >>= list_rows env)

abbrev cancel_path : Text → Text
cancel_path job_id = text "jobs/cancel?jobid=" ++ job_id

-- An error of an action, under a text of its own.
abbrev renamed : Outcome Text → Text → Outcome Unit
renamed (gave a) t = gave tt
renamed (failed e) t = failed (Err.wrapped (t ++ (text ": " ++ message e)) e)
renamed (crashed c) t = crashed c
renamed running t = running

abbrev pub in_job : Text → Act Text → Act Unit
in_job t m n = record {
  events = (m n).events;
  sent = (m n).sent;
  outcome = renamed (m n).outcome t;
}

-- The loop of doCancel.
unfoldable pub cancel_jobs : Env → List Text → Act Unit
cancel_jobs env [] = done
cancel_jobs env (job_id ∷ args) =
    let url = worker_path env (cancel_path job_id) in
    let rest = cancel_jobs env args in
    if env.dry_run
    then (do print (text "dryrun: GET " ++ url); rest)
    else (do in_job (text "canceling " ++ job_id) (http_get env url); rest)

unfoldable pub do_cancel : Env → List Text → Act Unit
do_cancel env args = do check env.identity_tokens; cancel_jobs env args

-- The encoding of the results, and what the deferred function joins to its error.
abbrev outcome_of : Option Err → Outcome Unit
outcome_of none = gave tt
outcome_of (some e) = failed e

abbrev error_of : Result Text → Option Err
error_of (ok t) = none
error_of (err e) = some e

abbrev encoded : Result Text → List Event
encoded (ok t) = wrote t ∷ []
encoded (err e) = []

abbrev pub write_and_close : Env → Result Text → Option Err → Act Unit
write_and_close env results closed n = record {
  events = encoded results;
  sent = n;
  outcome = outcome_of (join (error_of results) closed);
}

unfoldable pub write_results : Env → Text → Act Unit
write_results env results =
    if is_empty env.outfile then write_and_close env (env.encode results) none else (do
      check (env.create_file env.outfile)
      emit (created env.outfile)
      write_and_close env (env.encode results) env.close_file)

abbrev unfinished : Env → Job → Err
unfinished env job = plain (
    text "job not finished ("
    ++ (env.decimal (num_finished job)
        ++ (b'/'
            ∷ (env.decimal job.num_enqueued ++ text " completed); use -f for partial results"))))

unfoldable pub download_results : Env → Text → Job → Act Unit
unfolding write_results
download_results env job_id job =
    if not env.force && ltb (num_finished job) job.num_enqueued
    then fail (unfinished env job)
    else (do
      results ← request_json env.decode_results env (text "jobs/results?jobid=" ++ job_id)
      dereference results >>= write_results env)

unfoldable pub do_results : Env → List Text → Act Unit
unfolding download_results
do_results env [] = fail (plain (text "wrong number of args: want [-f] [-o FILE.json] JOB_ID"))
do_results env (job_id ∷ args) = do
  check env.identity_tokens
  found ← request_json env.decode_job env (describe_path job_id)
  job ← dereference found
  download_results env job_id job
