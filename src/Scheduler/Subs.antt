-- ===== src/Scheduler/Subs.antt =====
-- src/footstone/task_runner.cc: `AddSubTaskRunner` and `RemoveSubTaskRunner`, on the worker of the runner.
-- The worker's flag for stacking mode, which only its getter reads, is left out.
use footstone.Base.{
  ℕ, zero, suc, ◌+◌, Bool, true, false, not, Option, none, some, if◌then◌else◌, Outcome, ok, fault,
  no_return, ◌>>=◌,
}
use footstone.Base.Store.{write}
use footstone.Time.{Point}
use footstone.Scheduler.{Heap, Worker, bind_group, un_bind}
use footstone.Scheduler.Next.{Next, run_task}

-- `while (has_sub_runner_) worker->RunTask();` with fuel. The argument `effect` is what the tasks do, one
-- of which has to remove the sub-runner, and `clock n` is the time of round `n`.
unfoldable pub run_stacked :
    ℕ
    → (Next → Heap × Worker → Heap × Worker)
    → (ℕ → Point)
    → Heap
    → Worker
    → ℕ
    → Outcome (Heap × Worker)
unfolding run_task
run_stacked zero effect clock heap w r = fault no_return
run_stacked (suc fuel) effect clock heap w r = elim (heap r).has_sub_runner [
  | false ↦ ok (heap, w)
  | true ↦ do
    p ← run_task effect (clock 0) (clock 1) (clock 2) heap w
    run_stacked fuel effect (λ n. clock (n + 3)) p.0 p.1 r
]

unfoldable pub add_sub_task_runner :
    ℕ
    → (Next → Heap × Worker → Heap × Worker)
    → (ℕ → Point)
    → Heap
    → Option Worker
    → ℕ
    → ℕ
    → Bool
    → Outcome (Heap × Option Worker × Bool)
unfolding run_stacked
add_sub_task_runner fuel effect clock heap none r sub is_task_running = ok (heap, none, false)
add_sub_task_runner fuel effect clock heap (some w) r sub is_task_running = do
  w' ← bind_group heap w (heap r).id sub
  let heap' = write r (record (heap r) { has_sub_runner = true }) heap
  elim is_task_running [
    | false ↦ ok (heap', some w', true)
    | true ↦ do p ← run_stacked fuel effect clock heap' w' r; ok (p.0, some p.1, true)
  ]

unfoldable pub remove_sub_task_runner :
    Heap → Option Worker → ℕ → Option ℕ → Heap × Option Worker × Bool
remove_sub_task_runner heap worker r none = (heap, worker, false)
remove_sub_task_runner heap none r (some sub) = (heap, none, false)
remove_sub_task_runner heap (some w) r (some sub) =
    if not (heap r).has_sub_runner then (heap, some w, false) else (
      write r (record (heap r) { has_sub_runner = false }) heap,
      some (record (un_bind heap w sub) { notified = w.notified + 1 }),
      true,
    )
