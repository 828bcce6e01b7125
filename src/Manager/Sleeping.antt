-- ===== src/Manager/Sleeping.antt =====
-- `GetNextTask` of worker.cc with `WaitFor` of thread_worker.cc: whether the thread of a worker ever waits.
use footstone.Base.{
  Bool, ◌≡◌, refl, true, false, not, List, [], ◌∷◌, Option, none, some, ok, ◌>>=◌, if◌then◌else◌,
}
use footstone.Time.{Delta, Point}
use footstone.Runner.{Task, IdleTask}
use footstone.Scheduler.{Heap, Worker}
use footstone.Scheduler.Next.{
  Scan, Next, run, run_idle, nothing, wait, task_of, sort_no_lock, balance_if_needed, scan_groups,
  after_scan, get_next_task,
}
use footstone.Scheduler.Picks.{Always, any-Always, Always-ok}
use footstone.Manager.{no_wait, wait_for}

-- A wait for which the worker's thread does not wait.
abbrev EndsAtOnce : Heap × Worker × Next → Type 0
EndsAtOnce (heap, w, wait d) = wait_for w d ≡ no_wait
EndsAtOnce (heap, w, _) = Unit {0}

task_of-EndsAtOnce : (heap : Heap) (w : Worker) (t : Option Task) → EndsAtOnce (heap, w, task_of t)
task_of-EndsAtOnce heap w none = tt
task_of-EndsAtOnce heap w (some t) = tt

wait_for-ended : (w : Worker) (d : Delta) → w.is_terminated ≡ true → wait_for w d ≡ no_wait
unfolding wait_for
wait_for-ended w d ended = rw ended

after_scan-EndsAtOnce : (s : Scan) → EndsAtOnce (s.heap, s.worker, after_scan s)
unfolding after_scan
after_scan-EndsAtOnce s = go s.task s.worker.is_terminated s.idle_task refl
  where
    go :
        (task : Option Task) (ended : Bool) (idle : Option IdleTask)
        → s.worker.is_terminated ≡ ended
        → EndsAtOnce (
          s.heap,
          s.worker,
          elim task [
            | some t ↦ run t
            | none ↦ if not ended then nothing else elim idle [
              | none ↦ wait s.worker.min_wait_time
              | some i ↦
                  run_idle i (record { did_time_out = false; res_time = s.worker.min_wait_time })
            ]
          ],
        )
    go (some t) ended idle e = tt
    go none false idle e = tt
    go none true (some i) e = tt
    go none true none e = wait_for-ended s.worker s.worker.min_wait_time e

get_next_task-EndsAtOnce :
    (heap : Heap) (w : Worker) (now : Point) → Always EndsAtOnce (get_next_task heap w now)
unfolding get_next_task
get_next_task-EndsAtOnce heap w now = go w.immediate_task_queue
  where
    go :
        (queue : List (Option Task))
        → Always EndsAtOnce (elim queue [
          | task ∷ tasks ↦ ok (heap, record w { immediate_task_queue = tasks }, task_of task)
          | [] ↦ sort_no_lock heap w >>= λ w1. balance_if_needed heap w1 >>= λ p.
              scan_groups p.1.running_groups now p.0 p.1 none >>= λ s.
              ok (s.heap, s.worker, after_scan s)
        ])
    go (t ∷ tasks) = task_of-EndsAtOnce heap (record w { immediate_task_queue = tasks }) t
    go [] = any-Always EndsAtOnce (sort_no_lock heap w) _ (λ w1.
        any-Always EndsAtOnce (balance_if_needed heap w1) _ (λ p.
          any-Always EndsAtOnce (scan_groups p.1.running_groups now p.0 p.1 none) _
            after_scan-EndsAtOnce))

-- The thread of a worker never waits: whenever `GetNextTask` calls `WaitFor`, the worker has been terminated, and
-- then `WaitFor` returns at once.
pub never_sleeps :
    (heap heap' : Heap) (w w' : Worker) (now : Point) (d : Delta)
    → get_next_task heap w now ≡ ok (heap', w', wait d)
    → wait_for w' d ≡ no_wait
never_sleeps heap heap' w w' now d e =
    Always-ok EndsAtOnce (get_next_task heap w now) (heap', w', wait d)
      (get_next_task-EndsAtOnce heap w now) e
