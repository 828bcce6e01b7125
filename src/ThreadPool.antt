-- ===== src/ThreadPool.antt =====
-- include/footstone/thread_pool.h: the threads of a pool, its queue and its destructor, interleaved in any
-- order. Every access to `tasks_` and `stop_` is made under the mutex, so a step is one locked section, one
-- notification or the end of a task. A thread that finds the predicate of `condition_.wait` false sleeps until
-- a notification, or nothing at all, wakes it; then it tests the predicate again.
pub mod Order
pub mod Stopping
mod Tests
use footstone.Base.{
  ℕ, zero, suc, ◌+◌, ◌≡◌, Bool, true, false, List, [], ◌∷◌, ◌++◌, map, replicate, Option, none,
  some, if◌then◌else◌, ◌==◌,
}

-- Where a thread of the pool stands: it is about to test the predicate of `wait`, or sleeps in it, or runs a
-- task, or has returned.
pub data Thread : Type 0 where
  waiting asleep : Thread
  running : (task : ℕ) → Thread
  returned : Thread

-- The pool, whose tasks are numbers; `accepted`, `begun` and `finished` are the tasks that were enqueued,
-- taken and run so far. `to_notify` counts the calls of `Enqueue` that have still to call `notify_one`, and
-- `to_notify_all` says whether the destructor has still to call `notify_all`.
pub record Pool : Type 0 where
  pub workers : List Thread
  pub tasks : List ℕ
  pub stop : Bool
  pub to_notify : ℕ
  pub to_notify_all : Bool
  pub accepted : List ℕ
  pub begun : List ℕ
  pub finished : List ℕ

-- The constructor starts the threads.
unfoldable pub new_pool : ℕ → Pool
new_pool threads = record {
  workers = replicate threads waiting;
  tasks = [];
  stop = false;
  to_notify = 0;
  to_notify_all = false;
  accepted = [];
  begun = [];
  finished = [];
}

-- The locked section of `Enqueue`, after which it has to notify; `none` says that it throws.
unfoldable pub enqueue : Pool → ℕ → Option Pool
enqueue s task =
    if s.stop
    then none
    else some (record s {
      tasks = s.tasks ++ (task ∷ []);
      to_notify = s.to_notify + 1;
      accepted = s.accepted ++ (task ∷ []);
    })

abbrev pub has_asleep : List Thread → Bool
has_asleep [] = false
has_asleep (waiting ∷ l) = has_asleep l
has_asleep (asleep ∷ l) = true
has_asleep (running t ∷ l) = has_asleep l
has_asleep (returned ∷ l) = has_asleep l

unfoldable pub wake : Thread → Thread
wake waiting = waiting
wake asleep = waiting
wake (running t) = running t
wake returned = returned

-- The locked section of a thread; `none` says that the predicate of `wait` does not hold.
unfoldable pub take_task : Pool → Option (Pool × Thread)
take_task s = elim s.tasks [
  | [] ↦ if s.stop then some (s, returned) else none
  | t ∷ rest ↦ some (record s { tasks = rest; begun = s.begun ++ (t ∷ []) }, running t)
]

unfoldable pub finish_task : Pool → ℕ → Pool
finish_task s task = record s { finished = s.finished ++ (task ∷ []) }

-- The destructor sets the flag under the lock, wakes all threads, and then joins them.
unfoldable pub begin_stop : Pool → Pool
begin_stop s = record s { stop = true; to_notify_all = true }

unfoldable pub notify_all : Pool → Pool
unfolding wake
notify_all s = record s { to_notify_all = false; workers = map wake s.workers }

-- `notify_one` wakes any one of the threads that sleep, if there is one.
pub data Step (s : Pool) : Pool → Type 0 where
  client_enqueues : {s' : Pool} (task : ℕ) → enqueue s task ≡ some s' → Step s s'
  client_notifies :
      {n : ℕ} (before after : List Thread)
      → s.to_notify ≡ suc n
      → s.workers ≡ before ++ (asleep ∷ after)
      → Step s (record s { to_notify = n; workers = before ++ (waiting ∷ after) })
  client_notifies_none :
      {n : ℕ}
      → s.to_notify ≡ suc n
      → has_asleep s.workers ≡ false
      → Step s (record s { to_notify = n })
  client_stops : s.stop ≡ false → Step s (begin_stop s)
  client_notifies_all : s.to_notify_all ≡ true → Step s (notify_all s)
  thread_sleeps :
      (before after : List Thread)
      → s.workers ≡ before ++ (waiting ∷ after)
      → take_task s ≡ none
      → Step s (record s { workers = before ++ (asleep ∷ after) })
  thread_wakes :
      (before after : List Thread)
      → s.workers ≡ before ++ (asleep ∷ after)
      → Step s (record s { workers = before ++ (waiting ∷ after) })
  thread_takes :
      {s' : Pool} {p : Thread} (before after : List Thread)
      → s.workers ≡ before ++ (waiting ∷ after)
      → take_task s ≡ some (s', p)
      → Step s (record s' { workers = before ++ (p ∷ after) })
  thread_finishes :
      (before after : List Thread) (task : ℕ)
      → s.workers ≡ before ++ (running task ∷ after)
      → Step s (record (finish_task s task) { workers = before ++ (waiting ∷ after) })

pub data Reach (threads : ℕ) : Pool → Type 0 where
  begin : Reach threads (new_pool threads)
  next : {s t : Pool} → Reach threads s → Step s t → Reach threads t
