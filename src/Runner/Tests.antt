-- ===== src/Runner/Tests.antt =====
-- Runs of a TaskRunner, and instances of its theorems.
use mathlib.Core.List.{Perm}
use footstone.Base.{ℕ, ◌≡◌, ◌≢◌, refl, true, false, [], ◌∷◌, Option, none, some, arith}
use footstone.Base.Int.{pos}
use footstone.Time.{zero_delta}
use footstone.Runner.{Runner, Task, get_next, get_top_delay_task, pop_front, move_due, pop_due}
use footstone.Runner.Delayed.{IsSorted, HasTasks, ready, later, due, get_next_lem}
use footstone.Runner.Queues.{all_tasks, AllLater, get_next-perm}

abbrev task : ℕ → Option Task
task n = some (record { id = n; unit = some n })

-- One ready task, and two delayed ones for the times 10 and 20.
abbrev busy : Runner
busy = record {
  id = 0;
  group_id = 0;
  priority = 1;
  is_schedulable = true;
  has_sub_runner = false;
  time = zero_delta;
  worker = some 4;
  task_queue = task 1 ∷ [];
  idle_task_queue = [];
  delayed_task_queue = (pos 10, task 2) ∷ (pos 20, task 3) ∷ [];
}

get_next-busy :
    get_next busy (pos 10)
    ≡ (task 1, record busy { task_queue = task 2 ∷ []; delayed_task_queue = (pos 20, task 3) ∷ [] })
unfolding get_next pop_front move_due pop_due
get_next-busy = refl

-- The task that `GetTopDelayTask` takes leaves a null entry behind, at which `GetNext` stops.
null_entry :
    get_next (get_top_delay_task (record busy { task_queue = [] })).1 (pos 30)
    ≡ (none, record busy { task_queue = []; delayed_task_queue = (pos 20, task 3) ∷ [] })
unfolding get_next get_top_delay_task pop_front move_due pop_due
null_entry = refl

get_next_lem_example :
    get_next busy (pos 15)
    ≡ (task 1, record busy { task_queue = task 2 ∷ []; delayed_task_queue = (pos 20, task 3) ∷ [] })
unfolding ready pop_front later due
get_next_lem_example = get_next_lem busy (pos 15) (omega arith) tt

get_next-perm_example :
    let (t, r') = get_next busy (pos 15) in
    (ready busy (pos 15) ≢ []
      → Perm (all_tasks busy) (t ∷ all_tasks r') × (t ∷ r'.task_queue ≡ ready busy (pos 15)))
    × (ready busy (pos 15) ≡ [] → (t ≡ none) × (r' ≡ busy))
    × (r'.delayed_task_queue ≡ later (pos 15) busy.delayed_task_queue)
    × AllLater (pos 15) r'.delayed_task_queue
    × IsSorted r'.delayed_task_queue
    × HasTasks r'.delayed_task_queue
get_next-perm_example = get_next-perm busy (pos 15) (omega arith) tt

abbrev lonely : Runner
lonely = record busy { worker = none }
