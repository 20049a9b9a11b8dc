-- ===== src/Queue/InMemory/Tests.antt =====
-- internal/queue/queue.go: a run of the queue in memory with one worker and two tasks.
use pkgsite_metrics.Prelude.{ℕ, ◌≡◌, ◌⊎◌, ◌<◌, refl, Bool, true, false, List, [], ◌∷◌, text, arith}
use pkgsite_metrics.Queue.{Task}
use pkgsite_metrics.Queue.InMemory.{
  Dispatcher, acquiring, draining, closed_done, State, new_in_memory, enqueue_scan, close_queue,
  receive, receive_end, start_worker, end_worker, take_token, close_done, Reach, here, next,
}
use pkgsite_metrics.Queue.InMemory.Draining.{count, done_means_processed}
use pkgsite_metrics.Queue.InMemory.Closing.{
  NotEnded, Progress, work_left, closed_queue_goes_on, closed_queue_ends,
}

abbrev first : Task
first = record { name = text "a"; path = text "a@v1.0.0"; params = [] }

abbrev second : Task
second = record { name = text "b"; path = text "b@v1.0.0"; params = [] }

abbrev state : List Task → Bool → Dispatcher → ℕ → List Task → List Task → State
state buffer is_closed d tokens workers processed = record {
  buffer = buffer;
  is_closed = is_closed;
  context_done = false;
  dispatcher = d;
  tokens = tokens;
  workers = workers;
  enqueued = second ∷ first ∷ [];
  processed = processed;
}

-- One task is being processed, and the dispatcher waits with the other one.
busy : Reach 1 (state [] true (acquiring second) 1 (first ∷ []) [])
unfolding new_in_memory
busy =
    next
      (next
        (next
          (next
            (next (next here (enqueue_scan first refl (omega arith)))
              (enqueue_scan second refl (omega arith)))
            (close_queue refl))
          (receive first (second ∷ []) refl refl))
        (start_worker first refl (omega arith)))
      (receive second [] refl refl)

finished : Reach 1 (state [] true closed_done 1 [] (second ∷ first ∷ []))
finished =
    next
      (next
        (next
          (next
            (next (next busy (end_worker [] [] first 0 refl refl))
              (start_worker second refl (omega arith)))
            (receive_end refl refl refl))
          (end_worker [] [] second 0 refl refl))
        (take_token 0 refl (omega arith) (omega arith)))
      (close_done 1 refl refl)

done_means_processed_example :
    ((state [] true closed_done 1 [] (second ∷ first ∷ [])).workers ≡ [])
    × ((state [] true closed_done 1 [] (second ∷ first ∷ [])).buffer ≡ [])
    × ((p : Task → Bool) → count p (second ∷ first ∷ []) ≡ count p (second ∷ first ∷ []))
done_means_processed_example = done_means_processed finished refl

waits_NotEnded : NotEnded (acquiring second)
waits_NotEnded = ((λ t. λ e. cc), (λ i. λ e. cc))

abbrev blocked : State
blocked = state [] true (acquiring second) 1 (first ∷ []) []

closed_queue_goes_on_example : (blocked.dispatcher ≡ closed_done) ⊎ Progress 1 blocked
closed_queue_goes_on_example = closed_queue_goes_on busy (omega arith) refl waits_NotEnded

abbrev draining_state : ℕ → ℕ → State
draining_state i tokens = state [] true (draining i) tokens [] (second ∷ first ∷ [])

closed_queue_ends_example :
    (work_left 1 (draining_state 1 1) < work_left 1 (draining_state 0 0)) × (true ≡ true)
closed_queue_ends_example =
    closed_queue_ends {n = 1} {s = draining_state 0 0}
      (take_token 0 refl (omega arith) (omega arith)) refl
