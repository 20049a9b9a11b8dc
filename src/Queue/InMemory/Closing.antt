-- ===== src/Queue/InMemory/Closing.antt =====
-- internal/queue/queue.go: how the queue in memory comes to its end once it is closed.
use pkgsite_metrics.Prelude.{
  ℕ, zero, suc, ◌+◌, ◌-◌, ◌*◌, ◌≡◌, ◌≢◌, ◌⊎◌, inl, inr, ◌<◌, ◌≤◌, refl, ap, true, List, [], ◌∷◌,
  length, length-append, arith, if◌then◌else◌,
}
use native.Mathlib.Decide.{dec_lt}
use pkgsite_metrics.Queue.{Task}
use pkgsite_metrics.Queue.InMemory.{
  Dispatcher, receiving, acquiring, draining, closed_done, gave_up, panicked, State, Step,
  enqueue_scan, close_queue, end_context, receive, receive_end, start_worker, give_up, end_worker,
  take_token, panic, close_done, Reach,
}
use pkgsite_metrics.Queue.InMemory.Draining.{drained, Inv, Reach-Inv}

-- The operations of the dispatcher that are left once the queue is closed, of `n` workers.
abbrev dispatcher_left : ℕ → Dispatcher → ℕ
dispatcher_left n receiving = n + 2
dispatcher_left n (acquiring t) = n + 4
dispatcher_left n (draining i) = suc (n - i)
dispatcher_left n closed_done = 0
dispatcher_left n (gave_up t) = 0
dispatcher_left n (panicked i) = 0

-- A bound on the steps that are left once the queue is closed: a task in the channel is received,
-- then processed, then ended, and the context can end once.
abbrev pub work_left : ℕ → State → ℕ
work_left n s =
    dispatcher_left n s.dispatcher
    + (3 * length s.buffer + length s.workers)
    + (if s.context_done then 0 else 1)

-- Once the queue is closed, each step makes the work that is left smaller, so that no run goes on
-- for longer than that work, and it stays closed.
pub closed_queue_ends :
    {n : ℕ} {s t : State}
    → Step n s t
    → s.is_closed ≡ true
    → (work_left n t < work_left n s) × (t.is_closed ≡ true)
closed_queue_ends {n} {s} (enqueue_scan t open_now room) shut =
    absurd (ground (arith, open_now, shut))
closed_queue_ends {n} {s} (close_queue open_now) shut = absurd (ground (arith, open_now, shut))
closed_queue_ends {n} {s} (end_context running) shut = (rw running (omega arith), shut)
closed_queue_ends {n} {s} (receive t ts d e) shut =
    (omega (arith, ap (dispatcher_left n) d, ap length e), shut)
closed_queue_ends {n} {s} (receive_end d e ended) shut =
    (omega (arith, ap (dispatcher_left n) d), shut)
closed_queue_ends {n} {s} (start_worker t d lt) shut =
    (omega (arith, ap (dispatcher_left n) d), shut)
closed_queue_ends {n} {s} (give_up t d e) shut = (omega (arith, ap (dispatcher_left n) d), shut)
closed_queue_ends {n} {s} (end_worker xs ys t left e f) shut =
    (omega (arith, ap length e, length-append xs (t ∷ ys), length-append xs ys), shut)
closed_queue_ends {n} {s} (take_token i d lt free) shut =
    (omega (arith, ap (dispatcher_left n) d, lt), shut)
closed_queue_ends {n} {s} (panic i d lt e) shut = (omega (arith, ap (dispatcher_left n) d), shut)
closed_queue_ends {n} {s} (close_done i d e) shut = (omega (arith, ap (dispatcher_left n) d), shut)

-- A step other than the end of the context.
abbrev pub Progress : ℕ → State → Type 0
Progress n s = (t : State) × Step n s t × (t.context_done ≡ s.context_done)

-- A goroutine that processes a task can end while there is one.
worker_ends :
    {n : ℕ} {s : State} (ts : List Task) (k : ℕ)
    → s.workers ≡ ts
    → s.tokens ≡ k
    → 0 < length ts
    → length ts ≤ k
    → Progress n s
worker_ends [] k e f h le = absurd (omega (arith, h))
worker_ends (t ∷ ts) zero e f h le = absurd (omega (arith, le))
worker_ends (t ∷ ts) (suc k) e f h le = (_, end_worker [] ts t k e f, refl)

abbrev pub NotEnded : Dispatcher → Type 0
NotEnded d = ((t : Task) → d ≢ gave_up t) × ((i : ℕ) → d ≢ panicked i)

-- A queue with at least one worker never blocks: in each reachable state in which WaitForTesting has
-- closed the queue and the dispatcher was not ended by the context, `done` is closed or a step other
-- than the end of the context can be made, which is one of the dispatcher or of a goroutine that
-- processes a task, since a closed queue takes no task and is not closed again.
pub closed_queue_goes_on :
    {n : ℕ} {s : State}
    → Reach n s
    → 0 < n
    → s.is_closed ≡ true
    → NotEnded s.dispatcher
    → (s.dispatcher ≡ closed_done) ⊎ Progress n s
closed_queue_goes_on {n} {s} r pos shut going = go s.dispatcher s.buffer refl refl
  where
    inv : Inv n s
    inv = Reach-Inv r

    go :
        (d : Dispatcher) (b : List Task)
        → s.dispatcher ≡ d
        → s.buffer ≡ b
        → (s.dispatcher ≡ closed_done) ⊎ Progress n s
    go receiving [] e f = inr (_, receive_end e f shut, refl)
    go receiving (t ∷ ts) e f = inr (_, receive t ts e f, refl)
    go (acquiring t) b e f = elim (dec_lt s.tokens n) [
      | yes free ↦ inr (_, start_worker t e free, refl)
      | no full ↦ inr (
          worker_ends s.workers s.tokens refl refl (omega (arith, inv.used, ap (drained n) e))
            (omega (arith, inv.used)))
    ]
    go (draining i) b e f = elim (dec_lt i n) [
      | no all ↦
          inr (_, close_done i e (omega (arith, inv.used, inv.bounded, ap (drained n) e)), refl)
      | yes more ↦ elim (dec_lt s.tokens n) [
        | yes free ↦ inr (_, take_token i e more free, refl)
        | no full ↦ inr (
            worker_ends s.workers s.tokens refl refl
              (omega (arith, inv.used, inv.bounded, ap (drained n) e)) (omega (arith, inv.used)))
      ]
    ]
    go closed_done b e f = inl e
    go (gave_up t) b e f = absurd (going.0 t e)
    go (panicked i) b e f = absurd (going.1 i e)
