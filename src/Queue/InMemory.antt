-- ===== src/Queue/InMemory.antt =====
-- internal/queue/queue.go: the queue in memory. A step is the next operation of the dispatcher, of
-- one of the goroutines that process a task, of a caller, or the end of the context.
pub mod Draining
pub mod Closing
mod Tests
use pkgsite_metrics.Prelude.{ℕ, suc, ◌+◌, ◌≡◌, ◌<◌, Bool, true, false, List, [], ◌∷◌, ◌++◌, length}
use pkgsite_metrics.Queue.{Task}

-- The goroutine that NewInMemory starts: at the receive of its `range` loop, at the first select
-- with a task, at the second select after so many rounds, after `close(q.done)`, or ended by the
-- context: in the first select by its return, which drops the task, and in the second one by its
-- panic.
pub data Dispatcher : Type 0 where
  receiving : Dispatcher
  acquiring : Task → Dispatcher
  draining : ℕ → Dispatcher
  closed_done : Dispatcher
  gave_up : Task → Dispatcher
  panicked : ℕ → Dispatcher

-- `buffer` is what the channel `queue` holds, `tokens` how many values the channel `sem` holds.
-- `enqueued` and `processed` remember what was done.
pub record State : Type 0 where
  pub buffer : List Task
  pub is_closed : Bool
  pub context_done : Bool
  pub dispatcher : Dispatcher
  pub tokens : ℕ
  pub workers : List Task
  pub enqueued : List Task
  pub processed : List Task

abbrev pub queue_capacity : ℕ
queue_capacity = 1000

unfoldable pub new_in_memory : State
new_in_memory = record {
  buffer = [];
  is_closed = false;
  context_done = false;
  dispatcher = receiving;
  tokens = 0;
  workers = [];
  enqueued = [];
  processed = [];
}

module _ (worker_count : ℕ) where
  pub data Step (s : State) : State → Type 0 where
    enqueue_scan :
        (t : Task)
        → s.is_closed ≡ false
        → length s.buffer < queue_capacity
        → Step s (record s { buffer = s.buffer ++ (t ∷ []); enqueued = t ∷ s.enqueued })
    close_queue : s.is_closed ≡ false → Step s (record s { is_closed = true })
    end_context : s.context_done ≡ false → Step s (record s { context_done = true })
    receive :
        (t : Task) (ts : List Task)
        → s.dispatcher ≡ receiving
        → s.buffer ≡ t ∷ ts
        → Step s (record s { dispatcher = acquiring t; buffer = ts })
    receive_end :
        s.dispatcher ≡ receiving
        → s.buffer ≡ []
        → s.is_closed ≡ true
        → Step s (record s { dispatcher = draining 0 })
    start_worker :
        (t : Task)
        → s.dispatcher ≡ acquiring t
        → s.tokens < worker_count
        → Step s
            (record s { dispatcher = receiving; tokens = suc s.tokens; workers = t ∷ s.workers })
    give_up :
        (t : Task)
        → s.dispatcher ≡ acquiring t
        → s.context_done ≡ true
        → Step s (record s { dispatcher = gave_up t })
    end_worker :
        (xs ys : List Task) (t : Task) (left : ℕ)
        → s.workers ≡ xs ++ (t ∷ ys)
        → s.tokens ≡ suc left
        → Step s (record s { tokens = left; workers = xs ++ ys; processed = t ∷ s.processed })
    take_token :
        (i : ℕ)
        → s.dispatcher ≡ draining i
        → i < worker_count
        → s.tokens < worker_count
        → Step s (record s { dispatcher = draining (suc i); tokens = suc s.tokens })
    panic :
        (i : ℕ)
        → s.dispatcher ≡ draining i
        → i < worker_count
        → s.context_done ≡ true
        → Step s (record s { dispatcher = panicked i })
    close_done :
        (i : ℕ)
        → s.dispatcher ≡ draining i
        → i ≡ worker_count
        → Step s (record s { dispatcher = closed_done })

  pub data Reach : State → Type 0 where
    here : Reach new_in_memory
    next : {s t : State} → Reach s → Step s t → Reach t
