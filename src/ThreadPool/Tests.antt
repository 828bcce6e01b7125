-- ===== src/ThreadPool/Tests.antt =====
-- A pool of one thread, from its first task to the end of its destructor, and instances of its theorems.
use footstone.Base.{ℕ, ◌+◌, ◌<◌, ◌≤◌, ◌≡◌, refl, true, false, [], ◌∷◌, ◌++◌, length, arith}
use footstone.ThreadPool.{
  waiting, asleep, running, returned, Pool, new_pool, enqueue, take_task, finish_task, has_asleep,
  begin_stop, notify_all, Step, client_enqueues, client_notifies, client_stops, client_notifies_all,
  thread_sleeps, thread_takes, thread_finishes, Reach, begin, next,
}
use footstone.Base.Count.{count}
use footstone.ThreadPool.Order.{count_running, awake, tasks_in_turn}
use footstone.ThreadPool.Stopping.{
  all_returned, steps_left, stopped_shrinks, Steps, joined_pool, no_lost_wakeup,
}

-- The destructor has begun while the thread runs task 7, and has notified.
abbrev stopping : Pool
stopping = record {
  workers = running 7 ∷ [];
  tasks = [];
  stop = true;
  to_notify = 0;
  to_notify_all = false;
  accepted = 7 ∷ [];
  begun = 7 ∷ [];
  finished = [];
}

abbrev finished : Pool
finished = record stopping { workers = waiting ∷ []; finished = 7 ∷ [] }

abbrev joined : Pool
joined = record finished { workers = returned ∷ [] }

-- The thread sleeps, task 7 comes, and its notification wakes the thread.
stopping-Reach : Reach 1 stopping
unfolding new_pool enqueue take_task begin_stop notify_all
stopping-Reach =
    next
      (next
        (next
          (next (next (next begin (thread_sleeps [] [] refl refl)) (client_enqueues 7 refl))
            (client_notifies [] [] refl refl))
          (thread_takes [] [] refl refl))
        (client_stops refl))
      (client_notifies_all refl)

-- The destructor has begun while the thread sleeps.
abbrev sleeping : Pool
sleeping = record {
  workers = asleep ∷ [];
  tasks = [];
  stop = true;
  to_notify = 0;
  to_notify_all = true;
  accepted = [];
  begun = [];
  finished = [];
}

sleeping-Reach : Reach 1 sleeping
unfolding new_pool take_task begin_stop
sleeping-Reach = next (next begin (thread_sleeps [] [] refl refl)) (client_stops refl)

finishes : Step stopping finished
unfolding finish_task
finishes = thread_finishes [] [] 7 refl

joined-Reach : Reach 1 joined
unfolding take_task
joined-Reach = next (next stopping-Reach finishes) (thread_takes [] [] refl refl)

tasks_in_turn_example :
    (stopping.accepted ≡ stopping.begun ++ stopping.tasks)
    × ((x : ℕ) → count x (7 ∷ []) ≡ count x [] + count_running x (running 7 ∷ []))
    × (length stopping.workers ≡ 1)
tasks_in_turn_example = tasks_in_turn stopping-Reach

stopped_shrinks_example : (finished.stop ≡ true) × (steps_left finished < steps_left stopping)
stopped_shrinks_example = stopped_shrinks finishes refl

joined_pool_example : (joined.tasks ≡ []) × ((x : ℕ) → count x (7 ∷ []) ≡ count x (7 ∷ []))
joined_pool_example = joined_pool (omega arith) joined-Reach refl

no_lost_wakeup_example :
    (has_asleep sleeping.workers ≡ true → length sleeping.tasks ≤ 0 + awake sleeping.workers)
    × (sleeping.stop ≡ true
        → (t : Pool) × Reach 1 t × Steps sleeping t × (all_returned t.workers ≡ true))
no_lost_wakeup_example = no_lost_wakeup sleeping-Reach
