-- ===== src/Manager/Loop.antt =====
-- src/footstone/thread_worker.cc: `RunLoop` with fuel for its rounds; `fault no_return` says that it was not
-- enough. The argument `effect` is what the tasks do, among them the termination of the worker, and
-- `clock n` is the reading of the clock with the number `n`.
use footstone.Base.{
  Option, none, some, if◌then◌else◌, ℕ, zero, suc, ◌+◌, ◌%◌, Bool, true, false, Outcome, ok, fault,
  no_return, ◌>>=◌,
}
use footstone.Time.{Point}
use footstone.Runner.{id_mod}
use footstone.Scheduler.{Heap, Worker}
use footstone.Scheduler.Next.{Next, run_task}

-- `while (!is_terminated_) RunTask();`
unfoldable pub run_until_terminated :
    ℕ
    → (Next → Heap × Worker → Heap × Worker)
    → (ℕ → Point)
    → Heap
    → Worker
    → Outcome (Heap × Worker)
unfolding run_task
run_until_terminated zero effect clock heap w = fault no_return
run_until_terminated (suc fuel) effect clock heap w = elim w.is_terminated [
  | true ↦ ok (heap, w)
  | false ↦ do
    p ← run_task effect (clock 0) (clock 1) (clock 2) heap w
    run_until_terminated fuel effect (λ n. clock (n + 3)) p.0 p.1
]

-- `while (RunTask()) {}`
unfoldable pub run_until_idle :
    ℕ
    → (Next → Heap × Worker → Heap × Worker)
    → (ℕ → Point)
    → Heap
    → Worker
    → Outcome (Heap × Worker)
unfolding run_task
run_until_idle zero effect clock heap w = fault no_return
run_until_idle (suc fuel) effect clock heap w = do
  p ← run_task effect (clock 0) (clock 1) (clock 2) heap w
  elim p.2 [
    | false ↦ ok (p.0, p.1)
    | true ↦ run_until_idle fuel effect (λ n. clock (n + 3)) p.0 p.1
  ]

unfoldable pub run_loop :
    Bool
    → ℕ
    → (Next → Heap × Worker → Heap × Worker)
    → (ℕ → Point)
    → Heap
    → Worker
    → Outcome (Heap × Worker)
unfolding run_until_terminated run_until_idle
run_loop true fuel effect clock heap w = run_until_terminated fuel effect clock heap w
run_loop false fuel effect clock heap w = run_until_idle fuel effect clock heap w

-- `Run`, on the worker's own thread; `counter` is `global_worker_id`, by its 32 bits, and the last result is `local_worker_id` if
-- that is set.
unfoldable pub run_worker :
    Bool
    → ℕ
    → (Next → Heap × Worker → Heap × Worker)
    → (ℕ → Point)
    → Heap
    → Worker
    → ℕ
    → Outcome (Heap × Worker × ℕ × Option ℕ)
unfolding run_loop
run_worker immediately fuel effect clock heap w counter =
    if w.is_terminated
    then ok (heap, w, counter, none)
    else (run_loop immediately fuel effect clock heap w >>= λ p.
        ok (p.0, p.1, (counter + 1) % id_mod, some counter))
