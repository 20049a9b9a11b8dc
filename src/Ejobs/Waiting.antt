-- ===== src/Ejobs/Waiting.antt =====
-- cmd/ejobs/main.go: when doWait returns, and with what.
use pkgsite_metrics.Prelude.{
  ℕ, zero, suc, ◌+◌, ◌-◌, ◌<◌, ◌≤◌, ◌≡◌, refl, sym, ◌∙◌, subst, false, [], ◌∷◌, Option, none, Text,
  arith,
}
use pkgsite_metrics.Derrors.{Err}
use pkgsite_metrics.Jobs.{Job, num_finished}
use pkgsite_metrics.Ejobs.{
  Outcome, gave, failed, running, Env, ◌>>◌, give, emit, print, done, check, lift, dereference,
  http_get, request_json, describe_path, worker_path,
}
use pkgsite_metrics.Ejobs.Wait.{do_wait, wait_loop, poll}
use pkgsite_metrics.Ejobs.Ends.{
  bind-gave, EndsAs, bind-value, bind-failed, bind-running, then-value, after_poll_ongoing,
  after_poll-done, check_sent, passed, lift_sent, dereference_sent, http_get_sent,
}

module _ (env : Env) (job_id : Text) (real : env.dry_run ≡ false) where
  -- What the poll after `n` requests gives.
  abbrev pub seen : ℕ → Outcome Job
  seen n = (poll env job_id n).outcome

  request_json_sent :
      (n : ℕ) (o : Option Job)
      → (request_json env.decode_job env (describe_path job_id) n).outcome ≡ gave o
      → (request_json env.decode_job env (describe_path job_id) n).sent ≡ suc n
  unfolding request_json give http_get
  request_json_sent n o = rw real (λ h.
      let (body, e, s, h') =
        bind-gave (http_get env (worker_path env (describe_path job_id))) _ n o h in
      let (job, e', s', h'') = bind-gave (lift (env.decode_job body)) _ _ o h' in
      s ∙ (s' ∙ (lift_sent (env.decode_job body) _ ∙ http_get_sent env _ n body e)))

  poll_sent : (n : ℕ) (j : Job) → seen n ≡ gave j → (poll env job_id n).sent ≡ suc n
  poll_sent n j h =
      let (o, e, s, h') =
        bind-gave (request_json env.decode_job env (describe_path job_id)) dereference n j h in
      s ∙ (dereference_sent o _ ∙ request_json_sent n o e)

  -- A poll that finds the job not done: its finished tasks are fewer than those that were enqueued.
  abbrev pub IsOngoing : Outcome Job → Type 0
  IsOngoing o = (j : Job) × (o ≡ gave j) × (num_finished j < j.num_enqueued)

  loop_ongoing :
      (fuel n : ℕ)
      → IsOngoing (seen n)
      → EndsAs (wait_loop env job_id (suc fuel) n) (wait_loop env job_id fuel (suc n))
  unfolding wait_loop EndsAs
  loop_ongoing fuel n (j, e, more) =
      let rest =
        after_poll_ongoing env j (wait_loop env job_id fuel) (suc n) (ground (arith, more)) in
      let polled = bind-value (poll env job_id) _ n (suc n) j e (poll_sent n j e) in
      (polled.0 ∙ rest.0, polled.1 ∙ rest.1)

  loop_done :
      (fuel n : ℕ) (j : Job)
      → seen n ≡ gave j
      → j.num_enqueued ≤ num_finished j
      → EndsAs (wait_loop env job_id (suc fuel) n) (done (suc n))
  unfolding wait_loop EndsAs
  loop_done fuel n j e enough =
      let rest =
        after_poll-done env j (wait_loop env job_id fuel) (suc n) (ground (arith, enough)) in
      let polled = bind-value (poll env job_id) _ n (suc n) j e (poll_sent n j e) in
      (polled.0 ∙ rest.0, polled.1 ∙ rest.1)

  loop_failed :
      (fuel n : ℕ) (x : Err)
      → seen n ≡ failed x
      → (wait_loop env job_id (suc fuel) n).outcome ≡ failed x
  unfolding wait_loop
  loop_failed fuel n x e = bind-failed (poll env job_id) _ n x e

  loop_waits :
      (k fuel n : ℕ)
      → k ≤ fuel
      → ((i : ℕ) → i < k → IsOngoing (seen (n + i)))
      → EndsAs (wait_loop env job_id fuel n) (wait_loop env job_id (fuel - k) (n + k))
  unfolding EndsAs
  loop_waits zero fuel n le h =
      let same : fuel - 0 ≡ fuel = omega arith in
      let here : n + 0 ≡ n = omega arith in
      subst (λ z. EndsAs (wait_loop env job_id fuel n) (wait_loop env job_id z (n + 0))) (sym same)
        (subst (λ z. EndsAs (wait_loop env job_id fuel n) (wait_loop env job_id fuel z)) (sym here)
          (refl, refl))
  loop_waits (suc k) zero n le h = absurd (omega (arith, le))
  loop_waits (suc k) (suc fuel) n le h =
      let here : n + 0 ≡ n = omega arith in
      let fewer : fuel - k ≡ suc fuel - suc k = omega arith in
      let later : suc n + k ≡ n + suc k = omega arith in
      let now : IsOngoing (seen n) = subst (λ z. IsOngoing (seen z)) here (h 0 (omega arith)) in
      let first = loop_ongoing fuel n now in
      let rest = loop_waits k fuel (suc n) (omega (arith, le)) (λ i lt.
        let shift : n + suc i ≡ suc n + i = omega arith in
        subst (λ z. IsOngoing (seen z)) shift (h (suc i) (omega (arith, lt)))) in
      let moved =
        subst (λ z. EndsAs (wait_loop env job_id fuel (suc n)) (wait_loop env job_id z (n + suc k)))
          fewer
          (subst
            (λ z. EndsAs (wait_loop env job_id fuel (suc n)) (wait_loop env job_id (fuel - k) z))
            later rest) in
      (first.0 ∙ moved.0, first.1 ∙ moved.1)

  first_polls :
      (k fuel : ℕ)
      → k ≤ fuel
      → ((i : ℕ) → i < k → IsOngoing (seen i))
      → EndsAs (wait_loop env job_id fuel 0) (wait_loop env job_id (fuel - k) k)
  first_polls k fuel le before =
      let here : 0 + k ≡ k = omega arith in
      subst (λ z. EndsAs (wait_loop env job_id fuel 0) (wait_loop env job_id (fuel - k) z)) here
        (loop_waits k fuel 0 le (λ i h.
          let same : i ≡ 0 + i = omega arith in subst (λ z. IsOngoing (seen z)) same (before i h)))

  -- The loop, when a poll after `k` others that were ongoing is not.
  loop_until :
      (k fuel : ℕ)
      → k < fuel
      → ((i : ℕ) → i < k → IsOngoing (seen i))
      → (rest : ℕ) × EndsAs (wait_loop env job_id fuel 0) (wait_loop env job_id (suc rest) k)
  loop_until k fuel lt before =
      let more : fuel - k ≡ suc (fuel - k - 1) = omega (arith, lt) in
      (
        fuel - k - 1,
        subst (λ z. EndsAs (wait_loop env job_id fuel 0) (wait_loop env job_id z k)) more
            (first_polls k fuel (omega (arith, lt)) before),
      )

  -- With a source of tokens and outside of a dry run, `wait` returns without an error after the
  -- first poll that finds the job done, which is a job with at least as many finished tasks as
  -- enqueued ones, when the polls before it found the job with fewer: it has then sent exactly
  -- these requests. Any bound on the polls that is greater than their number before is enough.
  pub do_wait-finishes :
      env.identity_tokens ≡ none
      → (k fuel : ℕ) → k < fuel
      → ((i : ℕ) → i < k → IsOngoing (seen i))
      → (j : Job) → seen k ≡ gave j
      → j.num_enqueued ≤ num_finished j
      → ((do_wait env fuel (job_id ∷ []) 0).outcome ≡ gave tt)
        × ((do_wait env fuel (job_id ∷ []) 0).sent ≡ suc k)
  unfolding do_wait ◌>>◌ EndsAs done give print emit
  do_wait-finishes tokens k fuel lt before j e enough =
      let (rest, until) = loop_until k fuel lt before in
      let last = loop_done rest k j e enough in
      let checked =
        then-value (check env.identity_tokens) (wait_loop env job_id fuel >> _) 0 (passed tokens)
          (check_sent env.identity_tokens 0) in
      let looped =
        bind-value (wait_loop env job_id fuel) (λ _. print _) 0 (suc k) tt (until.0 ∙ last.0)
          (until.1 ∙ last.1) in
      (checked.0 ∙ looped.0, checked.1 ∙ looped.1)

  -- With a source of tokens and outside of a dry run, the error of a poll is the error of `wait`,
  -- when the polls before it found the job with fewer finished tasks than enqueued ones.
  pub do_wait-fails :
      env.identity_tokens ≡ none
      → (k fuel : ℕ) → k < fuel
      → ((i : ℕ) → i < k → IsOngoing (seen i))
      → (x : Err) → seen k ≡ failed x
      → (do_wait env fuel (job_id ∷ []) 0).outcome ≡ failed x
  unfolding do_wait ◌>>◌ EndsAs
  do_wait-fails tokens k fuel lt before x e =
      let (rest, until) = loop_until k fuel lt before in
      let checked =
        then-value (check env.identity_tokens) (wait_loop env job_id fuel >> _) 0 (passed tokens)
          (check_sent env.identity_tokens 0) in
      checked.0
      ∙ bind-failed (wait_loop env job_id fuel) (λ _. print _) 0 x
          (until.0 ∙ loop_failed rest k x e)

  -- With a source of tokens and outside of a dry run, `wait` does not return, whatever the bound on
  -- its polls, when each poll finds the job with fewer finished tasks than enqueued ones, also
  -- when the job is canceled.
  pub do_wait-waits :
      env.identity_tokens ≡ none
      → ((i : ℕ) → IsOngoing (seen i))
      → (fuel : ℕ)
      → ((do_wait env fuel (job_id ∷ []) 0).outcome ≡ running)
        × ((do_wait env fuel (job_id ∷ []) 0).sent ≡ fuel)
  unfolding do_wait ◌>>◌ wait_loop EndsAs
  do_wait-waits tokens ongoing fuel =
      let none_left : fuel - fuel ≡ 0 = omega arith in
      let waits : EndsAs (wait_loop env job_id fuel 0) (wait_loop env job_id 0 fuel) =
        subst (λ z. EndsAs (wait_loop env job_id fuel 0) (wait_loop env job_id z fuel)) none_left
          (first_polls fuel fuel (omega arith) (λ i h. ongoing i)) in
      let checked =
        then-value (check env.identity_tokens) (wait_loop env job_id fuel >> _) 0 (passed tokens)
          (check_sent env.identity_tokens 0) in
      let still = bind-running (wait_loop env job_id fuel) (λ _. print _) 0 waits.0 in
      (checked.0 ∙ still.0, checked.1 ∙ (still.1 ∙ waits.1))
