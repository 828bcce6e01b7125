-- ===== src/Manager/Draining.antt =====
-- src/footstone/thread_worker.cc: what becomes of the immediate tasks of a terminated worker in `RunLoop`.
use footstone.Base.{
  ℕ, suc, ◌+◌, ◌≡◌, refl, Bool, true, false, List, [], ◌∷◌, none, some, map, length, ok, arith,
}
use footstone.Time.{Delta, Point, point_minus}
use footstone.Runner.{Task}
use footstone.Scheduler.{Heap, Worker}
use footstone.Scheduler.Next.{
  Next, run, get_next_task, run_task, sort_no_lock, balance_if_needed, balance_no_lock, scan_groups,
  after_scan, charge,
}
use footstone.Manager.Loop.{run_worker, run_loop, run_until_terminated, run_until_idle}

-- A terminated worker whose runners are gone, with these immediate tasks.
abbrev pub retired : Worker → Bool → List Task → Worker
retired w need_balance tasks = record w {
  is_terminated = true;
  need_balance = need_balance;
  running_groups = [];
  pending_groups = [];
  immediate_task_queue = map some tasks;
  curr_group = [];
}

-- No task changes the worker.
abbrev pub LeavesWorker : (Next → Heap × Worker → Heap × Worker) → Type 0
LeavesWorker effect = (next : Next) (heap : Heap) (w : Worker) → (effect next (heap, w)).1 ≡ w

-- The difference of two readings, one after the other, is a TimeDelta.
abbrev pub Measurable : (ℕ → Point) → Type 0
Measurable clock = (n : ℕ) → (d : Delta) × (point_minus (clock (suc n)) (clock n) ≡ ok d)

later : (n : ℕ) → suc n + 3 ≡ suc (n + 3)
later n = omega arith

Measurable-later : (clock : ℕ → Point) → Measurable clock → Measurable (λ n. clock (n + 3))
Measurable-later clock measurable n = rw (later n) (measurable (n + 3))

-- The runners after these tasks, each run once, the first first.
abbrev pub run_all :
    (Next → Heap × Worker → Heap × Worker) → Worker → Bool → List Task → Heap → Heap
run_all effect w b [] heap = heap
run_all effect w b (t ∷ tasks) heap =
    run_all effect w b tasks (effect (run t) (heap, retired w b tasks)).0

module _ (effect : Next → Heap × Worker → Heap × Worker) (modest : LeavesWorker effect)
    (w : Worker) where
  run_task-retired :
      (now begin end : Point) (heap : Heap) (b : Bool)
      → run_task effect now begin end heap (retired w b []) ≡ ok (heap, retired w false [], false)
  unfolding run_task get_next_task sort_no_lock balance_if_needed balance_no_lock scan_groups
      after_scan
  run_task-retired now begin end heap true = refl
  run_task-retired now begin end heap false = refl

  pub run_task-task :
      (now begin end : Point) (heap : Heap) (b : Bool) (t : Task) (tasks : List Task) (d : Delta)
      → point_minus end begin ≡ ok d
      → run_task effect now begin end heap (retired w b (t ∷ tasks))
        ≡ ok ((effect (run t) (heap, retired w b tasks)).0, retired w b tasks, true)
  unfolding run_task get_next_task charge
  run_task-task now begin end heap b t tasks d e = rw (e, modest (run t) heap (retired w b tasks))

  run_until_idle-retired :
      (clock : ℕ → Point) (b : Bool) (tasks : List Task) (heap : Heap)
      → Measurable clock
      → run_until_idle (suc (length tasks)) effect clock heap (retired w b tasks)
        ≡ ok (run_all effect w b tasks heap, retired w false [])
  unfolding run_until_idle
  run_until_idle-retired clock b [] heap measurable =
      rw (run_task-retired (clock 0) (clock 1) (clock 2) heap b)
  run_until_idle-retired clock b (t ∷ tasks) heap measurable =
      let (d, e) = measurable 1 in
      rw (run_task-task (clock 0) (clock 1) (clock 2) heap b t tasks d e)
        (run_until_idle-retired (λ n. clock (n + 3)) b tasks _ (Measurable-later clock measurable))

  -- A terminated worker without runners returns from its loop: if it exits immediately, with none of its
  -- immediate tasks run, and else with all of them run, each once and in their order, within one round more than
  -- there are tasks; for tasks that leave the worker as it is, and a clock whose readings differ by a TimeDelta.
  pub run_loop-retired :
      (clock : ℕ → Point) (b : Bool) (tasks : List Task) (heap : Heap)
      → Measurable clock
      → (run_loop true (suc (length tasks)) effect clock heap (retired w b tasks)
          ≡ ok (heap, retired w b tasks))
        × (run_loop false (suc (length tasks)) effect clock heap (retired w b tasks)
            ≡ ok (run_all effect w b tasks heap, retired w false []))
  unfolding run_loop run_until_terminated
  run_loop-retired clock b tasks heap measurable =
      (refl, run_until_idle-retired clock b tasks heap measurable)

  -- Whether a terminated worker runs its immediate tasks depends on when it was terminated: `Run` of a worker that
  -- is terminated before its thread gets there runs none of them, also if it does not exit immediately, while its
  -- loop, once entered, runs them all, for tasks that leave the worker as it is.
  run_worker-retired :
      (immediate : Bool) (clock : ℕ → Point) (b : Bool) (tasks : List Task) (heap : Heap)
      (counter : ℕ)
      → Measurable clock
      → (run_worker immediate (suc (length tasks)) effect clock heap (retired w b tasks) counter
          ≡ ok (heap, retired w b tasks, counter, none))
        × (run_loop false (suc (length tasks)) effect clock heap (retired w b tasks)
            ≡ ok (run_all effect w b tasks heap, retired w false []))
  unfolding run_worker
  run_worker-retired immediate clock b tasks heap counter measurable =
      (refl, (run_loop-retired clock b tasks heap measurable).1)
