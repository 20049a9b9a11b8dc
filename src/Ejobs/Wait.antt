-- ===== src/Ejobs/Wait.antt =====
-- cmd/ejobs/main.go: doWait, with a bound on the number of its polls.
use pkgsite_metrics.Prelude.{
  ℕ, zero, suc, ◌*◌, ◌/◌, ◌==◌, Bool, List, [], ◌∷◌, ◌++◌, Text, text, ltb, leb, if◌then◌else◌,
}
use pkgsite_metrics.Derrors.{plain}
use pkgsite_metrics.Jobs.{Job, num_finished}
use pkgsite_metrics.Ejobs.{
  Act, Env, ◌>>=◌, ◌>>◌, fail, emit, print, done, check, dereference, slept, running, request_json,
  describe_path,
}

-- A time.Duration is a number of nanoseconds.
abbrev pub second : ℕ
second = 1000000000

abbrev pub sleep_interval : Env → ℕ
sleep_interval env = if ltb env.wait_interval second then second else env.wait_interval

-- The line of an update, without the time since the start.
abbrev update : Env → Job → Text
update env job =
    env.decimal (num_finished job)
    ++ (b'/'
        ∷ (env.decimal job.num_enqueued
            ++ (text " completed ("
                ++ (env.decimal (num_finished job * 100 / job.num_enqueued) ++ text "%)"))))

abbrev pub display_update : Env → Job → Act Unit
display_update env job = if env.wait_interval == 0 then done else print (update env job)

abbrev pub is_done : Job → Bool
is_done job = leb job.num_enqueued (num_finished job)

-- One round of the loop, and what follows it.
unfoldable pub after_poll : Env → Job → Act Unit → Act Unit
after_poll env job again =
    if is_done job
    then done
    else (do display_update env job; emit (slept (sleep_interval env)); again)

abbrev pub poll : Env → Text → Act Job
poll env job_id = request_json env.decode_job env (describe_path job_id) >>= dereference

unfoldable pub wait_loop : Env → Text → ℕ → Act Unit
unfolding after_poll
wait_loop env job_id zero = λ n. record { events = []; sent = n; outcome = running }
wait_loop env job_id (suc fuel) =
    let again = wait_loop env job_id fuel in poll env job_id >>= λ job. after_poll env job again

unfoldable pub do_wait : Env → ℕ → List Text → Act Unit
do_wait env fuel (job_id ∷ []) = do
  check env.identity_tokens
  wait_loop env job_id fuel
  print (text "Job " ++ (job_id ++ text " finished."))
do_wait env fuel _ = fail (plain (text "wrong number of args: want [-i DURATION] JOB_ID"))
