-- ===== src/Ejobs/DryRun.antt =====
-- cmd/ejobs/main.go: the flag -n, "print actions but do not execute them".
use pkgsite_metrics.Prelude.{
  ℕ, zero, suc, ◌≡◌, refl, sym, subst, true, false, List, [], ◌∷◌, ◌++◌, Option, none, Text, text,
  is_empty, text_eq,
}
use pkgsite_metrics.Derrors.{Result, ok, err}
use pkgsite_metrics.Ejobs.{
  printed, gave, crashed, Act, Env, Stat, missing, directory, file, stat_failed, follow,
  nil_dereference, ◌>>=◌, ◌>>◌, give, fail, emit, print, lift, dereference, request_json,
  worker_path, describe_path,
}
use pkgsite_metrics.Ejobs.Quiet.{
  IsQuiet, Quiet, Crashes, bind-Quiet, give-Quiet, fail-Quiet, print-Quiet, done-Quiet, then-Quiet,
  check-Quiet, lift-Quiet, if-Quiet, first-Quiet, bind-Crashes, then-Crashes, passed-Crashes,
  Crashes-Quiet, checked-Quiet,
}
use pkgsite_metrics.Ejobs.Wait.{do_wait, wait_loop, poll}
use pkgsite_metrics.Ejobs.Upload.{upload_analysis_binary}
use pkgsite_metrics.Ejobs.Start.{
  do_start, check_stat, check_is_linux_amd64, checked_platform, is_linux_amd64, platform,
  check_args, has_space,
}
use pkgsite_metrics.Ejobs.Show.{
  do_show, show_jobs, show_job, do_list, do_cancel, cancel_jobs, do_results, download_results,
}
use pkgsite_metrics.Ejobs.Commands.{
  Command, Flags, commands, dispatch, run, set_flags, set_min, set_interval, set_results,
  do_wait_bounded, at_url,
}

checked_platform-Quiet : (p : Text × Text) → Quiet (checked_platform p)
checked_platform-Quiet p = if-Quiet (is_linux_amd64 p) _ _ done-Quiet (fail-Quiet _)

check_args-Quiet : (args : List Text) → Quiet (check_args args)
unfolding check_args
check_args-Quiet [] = done-Quiet
check_args-Quiet (a ∷ args) = if-Quiet (has_space a) _ _ (fail-Quiet _) (check_args-Quiet args)

module _ (env : Env) (dry : env.dry_run ≡ true) where
  request_json-Quiet :
      {A : Type 0} (decode : Text → Result A) (path : Text) → Quiet (request_json decode env path)
  unfolding request_json
  request_json-Quiet decode path =
      first-Quiet env.dry_run _ _ dry (then-Quiet _ _ (print-Quiet _) (give-Quiet none))

  check_stat-Quiet : (f : Text) (s : Stat) → Quiet (check_stat env f s)
  unfolding check_is_linux_amd64
  check_stat-Quiet f missing = fail-Quiet _
  check_stat-Quiet f directory = fail-Quiet _
  check_stat-Quiet f (stat_failed e) = fail-Quiet e
  check_stat-Quiet f file =
      bind-Quiet _ _ (lift-Quiet (env.build_info f))
        (λ s. checked_platform-Quiet (platform ([], []) s))

  upload_analysis_binary-Quiet : (f : Text) → Quiet (upload_analysis_binary env f)
  unfolding upload_analysis_binary
  upload_analysis_binary-Quiet f =
      first-Quiet env.dry_run _ _ dry (then-Quiet _ _ (print-Quiet _) (give-Quiet false))

  do_start-Quiet : (args : List Text) → Quiet (do_start env args)
  unfolding do_start
  do_start-Quiet [] = fail-Quiet _
  do_start-Quiet (f ∷ args) = then-Quiet _ _ (check_stat-Quiet f (env.stat f)) (
      then-Quiet _ _ (check_args-Quiet args) (
        bind-Quiet _ _ (upload_analysis_binary-Quiet f) (λ canceled.
          if-Quiet canceled _ _ done-Quiet (
            then-Quiet _ _ (check-Quiet env.identity_tokens)
              (first-Quiet env.dry_run _ _ dry (print-Quiet _))))))

  show_job-Quiet : (job_id : Text) → Quiet (show_job env job_id)
  unfolding show_job
  show_job-Quiet job_id =
      bind-Quiet _ _ (request_json-Quiet env.decode_job _)
        (λ job. first-Quiet env.dry_run _ _ dry done-Quiet)

  show_jobs-Quiet : (args : List Text) → Quiet (show_jobs env args)
  unfolding show_jobs
  show_jobs-Quiet [] = done-Quiet
  show_jobs-Quiet (a ∷ args) = then-Quiet _ _ (show_job-Quiet a) (show_jobs-Quiet args)

  cancel_jobs-Quiet : (args : List Text) → Quiet (cancel_jobs env args)
  unfolding cancel_jobs
  cancel_jobs-Quiet [] = done-Quiet
  cancel_jobs-Quiet (a ∷ args) =
      first-Quiet env.dry_run _ _ dry (then-Quiet _ _ (print-Quiet _) (cancel_jobs-Quiet args))

  do_show-Quiet : (args : List Text) → Quiet (do_show env args)
  unfolding do_show
  do_show-Quiet args = then-Quiet _ _ (check-Quiet env.identity_tokens) (show_jobs-Quiet args)

  do_cancel-Quiet : (args : List Text) → Quiet (do_cancel env args)
  unfolding do_cancel
  do_cancel-Quiet args = then-Quiet _ _ (check-Quiet env.identity_tokens) (cancel_jobs-Quiet args)

  do_list-Quiet : (args : List Text) → Quiet (do_list env args)
  unfolding do_list
  do_list-Quiet args = then-Quiet _ _ (check-Quiet env.identity_tokens) (
      bind-Quiet _ _ (request_json-Quiet env.decode_jobs _)
        (λ jobs. first-Quiet env.dry_run _ _ dry done-Quiet))

  null-Crashes : {A : Type 0} → Crashes (dereference {A = A} none)
  unfolding dereference
  null-Crashes = record { at = λ n. ((tt, refl), refl) }

  request_json-nil :
      {A : Type 0} (decode : Text → Result A) (path : Text) (n : ℕ)
      → request_json decode env path n ≡ record {
        events = printed (text "GET " ++ worker_path env path) ∷ [];
        sent = n;
        outcome = gave none;
      }
  unfolding request_json ◌>>=◌ ◌>>◌ print emit give
  request_json-nil decode path n = rw dry refl

  nil-Crashes :
      {A B : Type 0} (decode : Text → Result A) (path : Text) (f : Option A → Act B)
      → Crashes (f none)
      → Crashes (request_json decode env path >>= f)
  unfolding ◌>>=◌
  nil-Crashes decode path f h = record {
    at = λ n.
        subst
          (λ r.
            let whole = follow r.events r.sent r.outcome f in
            IsQuiet whole n × (whole.outcome ≡ crashed nil_dereference))
          (sym (request_json-nil decode path n)) (((refl, (h.at n).0.0), (h.at n).0.1), (h.at n).1);
  }

  poll-Crashes : (job_id : Text) → Crashes (poll env job_id)
  poll-Crashes job_id = nil-Crashes env.decode_job _ dereference null-Crashes

  wait_loop-Crashes : (job_id : Text) (fuel : ℕ) → Crashes (wait_loop env job_id (suc fuel))
  unfolding wait_loop
  wait_loop-Crashes job_id fuel = bind-Crashes _ _ (poll-Crashes job_id)

  wait_loop-Quiet : (job_id : Text) (fuel : ℕ) → Quiet (wait_loop env job_id fuel)
  unfolding wait_loop
  wait_loop-Quiet job_id zero = record { at = λ n. (tt, refl) }
  wait_loop-Quiet job_id (suc fuel) = Crashes-Quiet _ (bind-Crashes _ _ (poll-Crashes job_id))

  do_wait-Quiet : (fuel : ℕ) (args : List Text) → Quiet (do_wait env fuel args)
  unfolding do_wait
  do_wait-Quiet fuel [] = fail-Quiet _
  do_wait-Quiet fuel (job_id ∷ []) =
      checked-Quiet env.identity_tokens _
        (then-Quiet _ _ (wait_loop-Quiet job_id fuel) (print-Quiet _))
  do_wait-Quiet fuel (a ∷ b ∷ args) = fail-Quiet _

  results-Crashes :
      (job_id : Text)
      → Crashes (
          request_json env.decode_job env (describe_path job_id) >>= λ found.
          (dereference found >>= λ job. download_results env job_id job))
  results-Crashes job_id = nil-Crashes env.decode_job _ _ (bind-Crashes _ _ null-Crashes)

  do_results-Quiet : (args : List Text) → Quiet (do_results env args)
  unfolding do_results
  do_results-Quiet [] = fail-Quiet _
  do_results-Quiet (job_id ∷ args) =
      checked-Quiet env.identity_tokens _ (Crashes-Quiet _ (results-Crashes job_id))

  -- In a dry run `wait` and `results` dereference the nil pointer that requestJSON gives: with a
  -- source of tokens, and for `wait` once it polls, each of them panics for every job.
  pub dry_run_crashes :
      env.identity_tokens ≡ none
      → (job_id : Text) (fuel n : ℕ)
      → ((do_wait env (suc fuel) (job_id ∷ []) n).outcome ≡ crashed nil_dereference)
        × ((do_results env (job_id ∷ []) n).outcome ≡ crashed nil_dereference)
  unfolding do_wait do_results
  dry_run_crashes tokens job_id fuel n = (
    ((passed-Crashes env.identity_tokens _ tokens
          (then-Crashes _ _ (wait_loop-Crashes job_id fuel))).at
        n).1,
    ((passed-Crashes env.identity_tokens _ tokens (results-Crashes job_id)).at n).1,
  )

-- A command under flags of its own.
parsed-Quiet :
    {A : Type 0} (env : Env) (set : Env → A → Env) (act : Env → List Text → Act Unit)
    (r : Result (A × List Text))
    → ((a : A) (args : List Text) → Quiet (act (set env a) args))
    → Quiet (lift (set_flags set env r) >>= λ parsed. act parsed.0 parsed.1)
unfolding lift ◌>>=◌ fail give
parsed-Quiet env set act (ok (a, args)) h = h a args
parsed-Quiet env set act (err e) h = record { at = λ n. (tt, refl) }

whole_args-Quiet :
    (env : Env) (act : Env → List Text → Act Unit) (args : List Text)
    → Quiet (act env args)
    → let all : Env × List Text = (env, args) in
      Quiet (lift (ok all) >>= λ parsed. act parsed.0 parsed.1)
unfolding lift ◌>>=◌ give
whole_args-Quiet env act args h = h

AreQuiet : Env → List Command → List Text → Type 0
AreQuiet env [] args = Unit
AreQuiet env (c ∷ cs) args =
    Quiet (lift (c.flags env args) >>= λ parsed. c.act parsed.0 parsed.1) × AreQuiet env cs args

dispatch-Quiet :
    (env : Env) (cs : List Command) (name : Text) (args : List Text)
    → AreQuiet env cs args
    → Quiet (dispatch env cs name args)
unfolding dispatch AreQuiet
dispatch-Quiet env [] name args h = fail-Quiet _
dispatch-Quiet env (c ∷ cs) name args h =
    if-Quiet (text_eq c.name name) _ _ h.0 (dispatch-Quiet env cs name args h.1)

commands-AreQuiet :
    (env : Env) (flags : Flags) (fuel : ℕ) (args : List Text)
    → env.dry_run ≡ true
    → AreQuiet env (commands flags fuel) args
unfolding commands AreQuiet
commands-AreQuiet env flags fuel args dry =
    let waits =
      parsed-Quiet env set_interval (do_wait_bounded fuel) (flags.wait_flags args)
        (λ d. do_wait-Quiet (set_interval env d) dry fuel) in
    let results =
      parsed-Quiet env set_results do_results (flags.results_flags args)
        (λ f. do_results-Quiet (set_results env f) dry) in
    let starts =
      parsed-Quiet env set_min do_start (flags.start_flags args)
        (λ n. do_start-Quiet (set_min env n) dry) in
    (
      whole_args-Quiet env do_list args (do_list-Quiet env dry args),
      (
        whole_args-Quiet env do_show args (do_show-Quiet env dry args),
        (
          whole_args-Quiet env do_cancel args (do_cancel-Quiet env dry args),
          (starts, (waits, (results, tt))),
        ),
      ),
    )

-- With the flag -n, no command does anything but print, whatever its arguments and flags are: it
-- makes no request, uploads, creates and writes nothing, and does not sleep.
pub dry_run-IsQuiet :
    (env : Env) (flags : Flags) (fuel : ℕ) (suffix environment name : Text) (args : List Text)
    (n : ℕ)
    → env.dry_run ≡ true
    → IsQuiet (run env flags fuel suffix environment name args n) n
unfolding run
dry_run-IsQuiet env flags fuel suffix environment name args n dry =
    (if-Quiet (is_empty suffix) _ _ (fail-Quiet _) (
        dispatch-Quiet (at_url env environment suffix) (commands flags fuel) name args
          (commands-AreQuiet (at_url env environment suffix) flags fuel args dry))).at
      n
