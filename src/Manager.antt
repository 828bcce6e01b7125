-- ===== src/Manager.antt =====
-- src/footstone/worker_manager.cc, where it hands runners to workers, and how thread_worker.cc stops and
-- waits. A worker is its place in `workers_`, and a `shared_ptr` to a new runner is an index of the store.
-- `stopped` holds the workers that have been removed from `workers_`, as they were then.
pub mod Adding
pub mod Loop
pub mod Draining
pub mod Sleeping
pub mod Balance
pub mod Staff
pub mod Resizing
pub mod Idle
pub mod Calm
pub mod Shrinking
mod Tests
use footstone.Base.{
  ℕ, zero, suc, ◌+◌, Bool, true, false, not, ◌||◌, List, [], ◌∷◌, ◌++◌, map, Option, none, some,
  get_elem?, set, replicate, ◌==◌, if◌then◌else◌, Outcome, ok, fault, out_of_range, or_fault, ◌>>=◌,
}
use footstone.Base.Store.{write}
use footstone.Time.{Delta, zero_delta, max_delta, time_eq}
use footstone.Runner.{Runner, new_runner, default_group_id}
use footstone.Specific.{
  Specifics, WorkerKey, get_moved_specific_keys, get_moved_specific, no_keys, no_specific,
  update_specific_keys, update_specific,
}
use footstone.Scheduler.{Heap, Group, Worker, new_worker, bind, un_bind}

pub record Manager : Type 0 where
  pub workers : List Worker
  pub specifics : ℕ → Specifics
  pub index : ℕ
  pub size : ℕ
  pub heap : Heap
  pub stopped : List Worker

-- `CreateWorkers`; `group_id` is what the field that no constructor sets happens to hold.
unfoldable pub create_workers : ℕ → Manager → ℕ → Manager
create_workers group_id m size = record m {
  workers = m.workers ++ replicate size (new_worker true group_id);
}

unfoldable pub new_manager : ℕ → Heap → ℕ → Manager
unfolding create_workers
new_manager group_id heap size =
    create_workers group_id
      (record {
        workers = [];
        specifics = λ _. record { keys = []; values = [] };
        index = 0;
        size = size;
        heap = heap;
        stopped = [];
      })
      size

-- `index_ = size_ - 1 ? 0 : ++index_`
unfoldable pub next_index : Manager → ℕ
next_index m = if m.size == 1 then m.index + 1 else 0

-- `UpdateWorkerSpecific` for the worker at `i`.
unfoldable pub update_worker_specific : Manager → ℕ → Group → Manager
update_worker_specific m i [] = m
update_worker_specific m i (r ∷ group) =
    let s = update_specific_keys (m.specifics i) (m.heap r).id no_keys in
    let s' = update_specific s (m.heap r).id no_specific in
    update_worker_specific
      (record m {
        heap = write r (record (m.heap r) { worker = some i }) m.heap;
        specifics = write i s' m.specifics;
      })
      i group

-- Sets the worker of a runner, and calls `Bind` of that worker.
unfoldable pub bind_to : Manager → ℕ → ℕ → Outcome Manager
bind_to m i r = do
  w ← or_fault out_of_range (get_elem? m.workers i)
  let heap = write r (record (m.heap r) { worker = some i }) m.heap
  w' ← bind heap w (r ∷ [])
  ok (record m { workers = set m.workers i w'; heap = heap })

unfoldable pub add_task_runner : Manager → ℕ → Outcome Manager
unfolding bind_to update_worker_specific next_index
add_task_runner m r = do
  m1 ← bind_to m m.index r
  let m2 = update_worker_specific m1 m.index (r ∷ [])
  ok (record m2 { index = next_index m2 })

-- The first worker with this group id, from place `i` on.
unfoldable pub find_worker : ℕ → ℕ → List Worker → Option ℕ
find_worker group_id i [] = none
find_worker group_id i (w ∷ workers) =
    if w.group_id == group_id then some i else find_worker group_id (suc i) workers

-- `CreateTaskRunner`; the new runner stands at `r`, and `counter` is the next id.
unfoldable pub create_task_runner : Manager → ℕ → ℕ → ℕ → ℕ → Bool → Outcome Manager
unfolding find_worker bind_to add_task_runner next_index
create_task_runner m r counter group_id priority is_schedulable =
    let made = (new_runner counter group_id priority is_schedulable).0 in
    let m1 = record m { heap = write r made m.heap } in
    if not is_schedulable
    then ok m1
    else if group_id == default_group_id
    then add_task_runner m1 r
    else elim (find_worker group_id 0 m1.workers) [
      | some i ↦ bind_to m1 i r
      | none ↦ (bind_to m1 m1.index r >>= λ m2. ok (record m2 { index = next_index m2 }))
    ]

unfoldable pub remove_task_runner : Manager → ℕ → Manager
remove_task_runner m r = record m { workers = map (λ w. un_bind m.heap w r) m.workers }

-- `TerminateWorker` of a worker with a thread, before it joins the thread.
unfoldable pub terminate_worker : Worker → Worker
terminate_worker w =
    if w.is_terminated then w else record w { is_terminated = true; notified = w.notified + 1 }

unfoldable pub terminate : Manager → Manager
unfolding terminate_worker
terminate m = record m { workers = map terminate_worker m.workers }

-- What `WaitFor` of a worker with a thread does.
pub data Wait : Type 0 where
  no_wait : Wait
  wait_at_most : Delta → Wait
  wait_for_notify : Wait

unfoldable pub wait_for : Worker → Delta → Wait
wait_for w delta =
    if w.is_terminated
    then no_wait
    else if time_eq delta max_delta || time_eq delta zero_delta
    then wait_for_notify
    else wait_at_most delta

-- The two tasks of `MoveTaskRunnerSpecificNoLock`: the first runs on the old worker and takes the values of
-- the runner, the second runs on the new one and stores them.
unfoldable pub take_specifics : Manager → ℕ → ℕ → Manager × List WorkerKey × List (Option ℕ)
take_specifics m from id =
    let (s, keys) = get_moved_specific_keys (m.specifics from) id in
    let (s', values) = get_moved_specific s id in
    (record m { specifics = write from s' m.specifics }, keys, values)

unfoldable pub give_specifics : Manager → ℕ → ℕ → List WorkerKey → List (Option ℕ) → Manager
give_specifics m to id keys values =
    let s = update_specific_keys (m.specifics to) id keys in
    record m { specifics = write to (update_specific s id values) m.specifics }
