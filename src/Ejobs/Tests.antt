-- ===== src/Ejobs/Tests.antt =====
-- cmd/ejobs/main.go: the theorems at a job of two tasks, one of which ends before each poll.
use pkgsite_metrics.Prelude.{
  ℕ, zero, suc, ◌<◌, ◌≡◌, refl, Bool, true, false, List, [], ◌∷◌, none, Text, text, filter_by,
  text_eq, arith,
}
use pkgsite_metrics.Prelude.Int.{negsuc}
use pkgsite_metrics.Derrors.{Result, ok, err, plain}
use pkgsite_metrics.Jobs.{Job}
use pkgsite_metrics.Worker.Analysis.Running.{fields, is_space}
use pkgsite_metrics.Ejobs.{
  gave, crashed, running, Env, nil_dereference, file, absent, ◌>>=◌, ◌>>◌, give, emit, print, done,
  check, lift, dereference, send, http_get, request_json,
}
use pkgsite_metrics.Ejobs.Wait.{do_wait}
use pkgsite_metrics.Ejobs.Show.{do_results}
use pkgsite_metrics.Ejobs.Start.{
  do_start, check_args, join_spaces, has_space, check_is_linux_amd64, platform,
}
use pkgsite_metrics.Ejobs.Upload.{upload_analysis_binary, upload, copy_to_gcs}
use pkgsite_metrics.Ejobs.Commands.{Flags, run}
use pkgsite_metrics.Ejobs.Waiting.{do_wait-finishes, do_wait-waits, IsOngoing, seen}
use pkgsite_metrics.Ejobs.Arguments.{is_word, fields-check_args}
use pkgsite_metrics.Ejobs.Quiet.{IsQuiet}
use pkgsite_metrics.Ejobs.DryRun.{dry_run-IsQuiet, dry_run_crashes}
use pkgsite_metrics.Ejobs.Gcs.{IsOnGcs}
use pkgsite_metrics.Ejobs.Uploaded.{IsLinuxAmd64, do_start-IsOnGcs}

-- A job with two tasks, `k` of which have succeeded.
abbrev job : Bool → ℕ → Job
job canceled k = record {
  user = text "me";
  started_at = 0;
  url = [];
  binary = text "b";
  binary_version = [];
  binary_args = [];
  canceled = canceled;
  num_enqueued = 2;
  num_started = k;
  num_skipped = 0;
  num_failed = 0;
  num_errored = 0;
  num_succeeded = k;
}

abbrev decoded : (ℕ → Job) → Text → Result Job
decoded jobs [] = err (plain (text "unexpected end of JSON input"))
decoded jobs (k ∷ s) = ok (jobs k)

abbrev linux : List (Text × Text)
linux = (text "GOOS", text "linux") ∷ (text "GOARCH", text "amd64") ∷ []

-- The answer to a request is its number. The bucket is empty.
abbrev env_with : Bool → (ℕ → Job) → Env
env_with dry_run jobs = record {
  worker_url = text "https://dev-w";
  user = text "me";
  dry_run = dry_run;
  min_importers = negsuc 0;
  wait_interval = 0;
  force = false;
  outfile = [];
  identity_tokens = none;
  access_tokens = none;
  new_request = λ u. none;
  token = none;
  exchange = λ n u. ok (record { status_code = 200; status = text "200 OK"; body = ok (n ∷ []) });
  decode_job = decoded jobs;
  decode_jobs = λ t. ok [];
  decode_results = λ t. ok t;
  decimal = λ n. [];
  fields_of = λ j. [];
  job_id = λ j. [];
  row_of = λ j. [];
  query_escape = λ t. t;
  now = 0;
  stat = λ f. file;
  build_info = λ f. ok linux;
  open_file = λ f. ok (ok (text "ELF"));
  create_file = λ f. none;
  encode = λ t. ok t;
  close_file = none;
  new_client = none;
  object = λ o. absent;
  md5_sum = λ t. t;
  write_object = none;
  close_object = none;
  response = [];
}

abbrev progress : Env
progress = env_with false (job false)

abbrev stuck : Env
stuck = env_with false (λ k. job true 1)

first_two : (i : ℕ) → i < 2 → IsOngoing progress (text "j") refl (seen progress (text "j") refl i)
unfolding request_json http_get send ◌>>=◌ ◌>>◌ check done give lift dereference
first_two zero h = (job false 0, refl, omega arith)
first_two (suc zero) h = (job false 1, refl, omega arith)
first_two (suc (suc i)) h = absurd (omega arith)

do_wait-finishes_example :
    ((do_wait progress 5 (text "j" ∷ []) 0).outcome ≡ gave tt)
    × ((do_wait progress 5 (text "j" ∷ []) 0).sent ≡ 3)
unfolding request_json http_get send ◌>>=◌ ◌>>◌ check done give lift dereference
do_wait-finishes_example =
    do_wait-finishes progress (text "j") refl refl 2 5 (omega arith) first_two (job false 2) refl
      (omega arith)

do_wait-waits_example :
    ((do_wait stuck 1000 (text "j" ∷ []) 0).outcome ≡ running)
    × ((do_wait stuck 1000 (text "j" ∷ []) 0).sent ≡ 1000)
unfolding request_json http_get send ◌>>=◌ ◌>>◌ check done give lift dereference
do_wait-waits_example =
    do_wait-waits stuck (text "j") refl refl (λ i. (job true 1, refl, omega arith)) 1000

fields-check_args_example :
    fields (join_spaces (text "-v" ∷ [] ∷ text "x" ∷ []))
    ≡ filter_by is_word (text "-v" ∷ [] ∷ text "x" ∷ [])
unfolding check_args has_space is_space done give
fields-check_args_example = fields-check_args (text "-v" ∷ [] ∷ text "x" ∷ []) 0 refl

abbrev flags : Flags
flags = record {
  start_flags = λ args. ok (negsuc 0, args);
  wait_flags = λ args. ok (0, args);
  results_flags = λ args. ok ((false, []), args);
}

dry_run-IsQuiet_example :
    IsQuiet
      (run
        (env_with true (job false))
        flags
        5
        (text "w")
        (text "dev")
        (text "start")
        (text "b" ∷ [])
        0)
      0
dry_run-IsQuiet_example =
    dry_run-IsQuiet (env_with true (job false)) flags 5 (text "w") (text "dev") (text "start")
      (text "b" ∷ []) 0 refl

dry_run_crashes_example :
    ((do_wait (env_with true (job false)) 6 (text "j" ∷ []) 0).outcome ≡ crashed nil_dereference)
    × ((do_results (env_with true (job false)) (text "j" ∷ []) 0).outcome ≡ crashed nil_dereference)
dry_run_crashes_example = dry_run_crashes (env_with true (job false)) refl refl (text "j") 5 0

do_start-IsOnGcs_example :
    IsLinuxAmd64 progress (text "dir/b")
    × IsOnGcs progress (text "dir/b") (do_start progress (text "dir/b" ∷ []) 0).events
unfolding do_start check_is_linux_amd64 platform check_args upload_analysis_binary upload
    copy_to_gcs http_get send ◌>>=◌ ◌>>◌ check done give lift emit print text_eq
do_start-IsOnGcs_example = do_start-IsOnGcs progress (text "dir/b") [] 0 refl (omega arith)
