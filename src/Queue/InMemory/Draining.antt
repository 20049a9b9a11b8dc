-- ===== src/Queue/InMemory/Draining.antt =====
-- internal/queue/queue.go: what holds while the queue in memory runs, and when its `done` channel is
-- closed.
use pkgsite_metrics.Prelude.{
  ℕ, ◌+◌, ◌≡◌, ◌≤◌, refl, ap, Bool, true, false, List, [], ◌∷◌, ◌++◌, length, length-append, arith,
  if◌then◌else◌,
}
use pkgsite_metrics.Queue.{Task}
use pkgsite_metrics.Queue.InMemory.{
  Dispatcher, receiving, acquiring, draining, closed_done, gave_up, panicked, State, new_in_memory,
  Step, enqueue_scan, close_queue, end_context, receive, receive_end, start_worker, give_up,
  end_worker, take_token, panic, close_done, Reach, here, next,
}

-- How many tasks of a list pass a test.
abbrev pub count : (Task → Bool) → List Task → ℕ
count p [] = 0
count p (t ∷ ts) = (if p t then 1 else 0) + count p ts

-- The task that the dispatcher holds, or has dropped when the context ended.
abbrev held : (Task → Bool) → Dispatcher → ℕ
held p (acquiring t) = if p t then 1 else 0
held p receiving = 0
held p (draining i) = 0
held p closed_done = 0
held p (gave_up t) = if p t then 1 else 0
held p (panicked i) = 0

-- How many tokens the dispatcher has taken at the end.
abbrev pub drained : ℕ → Dispatcher → ℕ
drained n receiving = 0
drained n (acquiring t) = 0
drained n (draining i) = i
drained n closed_done = n
drained n (gave_up t) = 0
drained n (panicked i) = i

count-append : (p : Task → Bool) (xs ys : List Task) → count p (xs ++ ys) ≡ count p xs + count p ys
count-append p [] ys = omega arith
count-append p (x ∷ xs) ys = omega (arith, count-append p xs ys)

-- The dispatcher has left its first loop by the end of the channel.
abbrev is_ending : Dispatcher → Bool
is_ending (draining i) = true
is_ending closed_done = true
is_ending (panicked i) = true
is_ending receiving = false
is_ending (acquiring t) = false
is_ending (gave_up t) = false

pub record Inv (n : ℕ) (s : State) : Type 0 where
  pub used : s.tokens ≡ length s.workers + drained n s.dispatcher
  pub bounded : s.tokens ≤ n
  pub counted :
      (p : Task → Bool)
      → count p s.enqueued
        ≡ count p s.processed + (count p s.workers + (held p s.dispatcher + count p s.buffer))
  pub ended : is_ending s.dispatcher ≡ true → (s.buffer ≡ []) × (s.is_closed ≡ true)

start-Inv : (n : ℕ) → Inv n new_in_memory
unfolding new_in_memory
start-Inv n = record {
  used = omega arith;
  bounded = omega arith;
  counted = λ p. omega arith;
  ended = λ e. cc;
}

Step-Inv : {n : ℕ} {s t : State} → Step n s t → Inv n s → Inv n t
Step-Inv {n} {s} (enqueue_scan t open_now room) inv = record {
  used = inv.used;
  bounded = inv.bounded;
  counted = λ p. omega (arith, inv.counted p, count-append p s.buffer (t ∷ []));
  ended = λ e. absurd (ground (arith, (inv.ended e).1, open_now));
}
Step-Inv {n} {s} (close_queue open_now) inv = record {
  used = inv.used;
  bounded = inv.bounded;
  counted = inv.counted;
  ended = λ e. ((inv.ended e).0, refl);
}
Step-Inv {n} {s} (end_context running) inv = record {
  used = inv.used;
  bounded = inv.bounded;
  counted = inv.counted;
  ended = inv.ended;
}
Step-Inv {n} {s} (receive t ts d e) inv = record {
  used = omega (arith, inv.used, ap (drained n) d);
  bounded = inv.bounded;
  counted = λ p. omega (arith, inv.counted p, ap (held p) d, ap (count p) e);
  ended = λ h. cc;
}
Step-Inv {n} {s} (receive_end d e shut) inv = record {
  used = omega (arith, inv.used, ap (drained n) d);
  bounded = inv.bounded;
  counted = λ p. omega (arith, inv.counted p, ap (held p) d);
  ended = λ h. (e, shut);
}
Step-Inv {n} {s} (start_worker t d lt) inv = record {
  used = omega (arith, inv.used, ap (drained n) d);
  bounded = omega (arith, lt);
  counted = λ p. omega (arith, inv.counted p, ap (held p) d);
  ended = λ h. cc;
}
Step-Inv {n} {s} (give_up t d e) inv = record {
  used = omega (arith, inv.used, ap (drained n) d);
  bounded = inv.bounded;
  counted = λ p. omega (arith, inv.counted p, ap (held p) d);
  ended = λ h. cc;
}
Step-Inv {n} {s} (end_worker xs ys t left e f) inv = record {
  used = omega (arith, inv.used, f, ap length e, length-append xs (t ∷ ys), length-append xs ys);
  bounded = omega (arith, inv.bounded, f);
  counted = λ p.
      omega
        (arith, inv.counted p, ap (count p) e, count-append p xs (t ∷ ys), count-append p xs ys);
  ended = inv.ended;
}
Step-Inv {n} {s} (take_token i d lt free) inv = record {
  used = omega (arith, inv.used, ap (drained n) d);
  bounded = omega (arith, free);
  counted = λ p. omega (arith, inv.counted p, ap (held p) d);
  ended = λ h. inv.ended (ap is_ending d);
}
Step-Inv {n} {s} (panic i d lt e) inv = record {
  used = omega (arith, inv.used, ap (drained n) d);
  bounded = inv.bounded;
  counted = λ p. omega (arith, inv.counted p, ap (held p) d);
  ended = λ h. inv.ended (ap is_ending d);
}
Step-Inv {n} {s} (close_done i d e) inv = record {
  used = omega (arith, inv.used, ap (drained n) d, e);
  bounded = inv.bounded;
  counted = λ p. omega (arith, inv.counted p, ap (held p) d);
  ended = λ h. inv.ended (ap is_ending d);
}

pub Reach-Inv : {n : ℕ} {s : State} → Reach n s → Inv n s
Reach-Inv {n} here = start-Inv n
Reach-Inv (next r st) = Step-Inv st (Reach-Inv r)

no_workers : (ts : List Task) → length ts ≡ 0 → ts ≡ []
no_workers [] h = refl
no_workers (t ∷ ts) h = absurd (omega (arith, h))

-- In each reachable state of a queue with `n` workers, whatever the order of the steps and whether
-- the context has ended or not, at most `n` tasks are being processed.
workers_bounded : {n : ℕ} {s : State} → Reach n s → length s.workers ≤ n
workers_bounded r = omega (arith, (Reach-Inv r).used, (Reach-Inv r).bounded)

-- Once `done` is closed, so that WaitForTesting returns, no task is being processed and none waits,
-- and of the tasks that pass any test, as many were processed as were enqueued: each enqueued task
-- was processed, as often as it was enqueued, and no other one.
pub done_means_processed :
    {n : ℕ} {s : State}
    → Reach n s
    → s.dispatcher ≡ closed_done
    → (s.workers ≡ [])
      × (s.buffer ≡ [])
      × ((p : Task → Bool) → count p s.processed ≡ count p s.enqueued)
done_means_processed {n} {s} r e =
    let inv = Reach-Inv r in
    let idle : s.workers ≡ [] =
      no_workers s.workers (omega (arith, inv.used, inv.bounded, ap (drained n) e)) in
    let empty = (inv.ended (ap is_ending e)).0 in
    (
      idle,
      empty,
      λ p. omega (arith, inv.counted p, ap (count p) idle, ap (count p) empty, ap (held p) e),
    )
