-- ===== src/Manager/Tests.antt =====
-- A manager of two workers, and an instance of its theorem.
use mathlib.Core.Path.{subst}
use footstone.Base.{
  ℕ, ◌+◌, ◌≡◌, ◌≢◌, refl, true, false, List, [], ◌∷◌, none, some, length, ok, arith, zero, suc,
}
use footstone.Base.Count.{count}
use footstone.Base.Int.{pos, ◌-ℤ◌}
use footstone.Manager.Loop.{run_loop}
use footstone.Manager.Draining.{retired, run_all, run_loop-retired}
use footstone.Time.{Point, max_delta, zero_delta, point_minus, int64, in_int64}
use footstone.Runner.{Task}
use footstone.Scheduler.{
  Heap, Worker, new_worker, any_schedulable, any_unschedulable, in_groups, has_unschedulable_runner,
}
use footstone.Scheduler.Binding.{members}
use footstone.Manager.{Manager, no_wait, wait_for}
use footstone.Manager.Sleeping.{never_sleeps}
use footstone.Scheduler.Next.{
  get_next_task, sort_no_lock, balance_if_needed, balance_no_lock, scan_groups, after_scan,
}
use footstone.Manager.Balance.{resize, running_sizes}
use footstone.Manager.Staff.{staff}
use footstone.Manager.Resizing.{left_out, resize_keeps_staff}
use footstone.Manager.Idle.{idle_resize_drops_all}
use footstone.Manager.Calm.{Everywhere, IsCalm, terminations}
use footstone.Manager.Shrinking.{resize_keeps_workers}

abbrev heap : Heap
heap i = record {
  id = i;
  group_id = 0;
  priority = 1;
  is_schedulable = true;
  has_sub_runner = false;
  time = zero_delta;
  worker = none;
  task_queue = [];
  idle_task_queue = [];
  delayed_task_queue = [];
}

abbrev pair : Manager
pair = record {
  workers = [];
  specifics = λ _. record { keys = []; values = [] };
  index = 0;
  size = 2;
  heap = heap;
  stopped = [];
}

-- A store in which the worker of every runner is the first, and a manager of three workers: the first runs two
-- groups and has one that is pending, the others have none.
abbrev placed_heap : Heap
placed_heap i = record (heap i) { worker = some 0 }

abbrev busy_worker : Worker
busy_worker = record (new_worker true 0) {
  running_groups = (1 ∷ []) ∷ (2 ∷ []) ∷ [];
  pending_groups = (3 ∷ []) ∷ [];
}

abbrev trio : Manager
trio = record {
  workers = busy_worker ∷ new_worker true 0 ∷ new_worker true 0 ∷ [];
  specifics = λ _. record { keys = []; values = [] };
  index = 0;
  size = 3;
  heap = placed_heap;
  stopped = [];
}

abbrev no_task : ℕ → ℕ → ℕ → Task
no_task id from to = record { id = id; unit = none }

resize_keeps_staff_example :
    (m' : Manager) × (resize no_task false 0 trio 4 ≡ ok m')
    × (m'.size ≡ 4)
    × (length m'.workers ≡ 4)
    × ((x : ℕ)
        → count x (staff m'.workers) + count x (members (left_out trio 4))
          ≡ count x (staff trio.workers))
unfolding any_schedulable new_worker
resize_keeps_staff_example =
    resize_keeps_staff no_task false 0 trio 4 refl (omega arith) refl
      (λ r pos. (0, refl, omega arith))

-- Nothing has run yet: two groups are pending.
abbrev fresh : Manager
fresh = record trio {
  workers =
      record (new_worker true 0) { pending_groups = (1 ∷ []) ∷ (2 ∷ []) ∷ [] }
      ∷ new_worker true 0
      ∷ new_worker true 0
      ∷ [];
}

idle_resize_drops_all_example :
    (m' : Manager) × (resize no_task false 0 fresh 4 ≡ ok m')
    × (length m'.workers ≡ 4)
    × (staff m'.workers ≡ [])
unfolding running_sizes new_worker
idle_resize_drops_all_example =
    idle_resize_drops_all no_task false 0 fresh 4 refl (omega arith) refl

one_is_not_nothing : (r : ℕ) → (r ∷ []) ≢ []
one_is_not_nothing r e = cc

some_injective : {v w : Worker} → some v ≡ some w → v ≡ w
some_injective e = cc

idle-IsCalm : IsCalm placed_heap (new_worker true 0)
unfolding has_unschedulable_runner in_groups any_schedulable new_worker
idle-IsCalm = record { may_stop = refl; defined = refl; running_filled = tt; pending_filled = tt }

trio-IsCalm : Everywhere (IsCalm trio.heap) trio.workers
unfolding has_unschedulable_runner in_groups any_unschedulable any_schedulable new_worker
trio-IsCalm zero w e = subst (IsCalm trio.heap) (some_injective e) (record {
  may_stop = refl;
  defined = refl;
  running_filled = (one_is_not_nothing 1, (one_is_not_nothing 2, tt));
  pending_filled = (one_is_not_nothing 3, tt);
})
trio-IsCalm (suc zero) w e = subst (IsCalm trio.heap) (some_injective e) idle-IsCalm
trio-IsCalm (suc (suc zero)) w e = subst (IsCalm trio.heap) (some_injective e) idle-IsCalm
trio-IsCalm (suc (suc (suc i))) w e = cc

resize_keeps_workers_example :
    (m' : Manager) × (resize no_task false 0 trio 2 ≡ ok m')
    × (m'.size ≡ 2)
    × (length m'.workers ≡ 3)
    × (m'.stopped ≡ [])
    × (terminations m'.workers ≡ false ∷ false ∷ false ∷ [])
    × ((x : ℕ) → count x (staff m'.workers) ≡ count x (staff trio.workers))
unfolding new_worker
resize_keeps_workers_example =
    resize_keeps_workers no_task 0 trio 2 refl (omega arith) (omega arith) trio-IsCalm

abbrev ticks : ℕ → Point
ticks n = pos 4

abbrev two_tasks : List Task
two_tasks = record { id = 1; unit = some 7 } ∷ record { id = 2; unit = some 8 } ∷ []

run_loop-retired_example :
    (run_loop true 3 (λ _ p. p) ticks heap (retired (new_worker true 0) true two_tasks)
      ≡ ok (heap, retired (new_worker true 0) true two_tasks))
    × (run_loop false 3 (λ _ p. p) ticks heap (retired (new_worker true 0) true two_tasks)
        ≡ ok (
          run_all (λ _ p. p) (new_worker true 0) true two_tasks heap,
          retired (new_worker true 0) false [],
        ))
unfolding point_minus int64 in_int64 ◌-ℤ◌
run_loop-retired_example =
    run_loop-retired (λ _ p. p) (λ next h w. refl) (new_worker true 0) ticks true two_tasks heap
      (λ n. (pos 0, refl))

never_sleeps_example : wait_for (retired (new_worker true 0) false []) max_delta ≡ no_wait
unfolding new_worker get_next_task sort_no_lock balance_if_needed balance_no_lock scan_groups
    after_scan
never_sleeps_example =
    never_sleeps heap heap (retired (new_worker true 0) true [])
      (retired (new_worker true 0) false []) (pos 5) max_delta refl
