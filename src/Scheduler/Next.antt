-- ===== src/Scheduler/Next.antt =====
-- src/footstone/worker.cc: `SortNoLock`, `BalanceNoLock`, `GetNextTask` and `RunTask`. All readings of
-- the clock in one `GetNextTask` are taken at one time, `now`.
use footstone.Base.{
  ℕ, Bool, true, false, not, List, [], ◌∷◌, ◌++◌, Option, none, some, length, ltb, ◌%◌, ◌-◌,
  if◌then◌else◌, Outcome, ok, fault, out_of_range, failed_check, ◌>>=◌,
}
use footstone.Base.Int.{ℤ, pos, negsuc, ◌*ℤ◌, ltb_ℤ}
use footstone.Base.Store.{write}
use footstone.Time.{Delta, Point, zero_delta, int64, time_lt, point_plus_delta, point_minus}
use footstone.Runner.{
  Runner, Task, IdleTask, IdleParam, get_next, pop_idle_task, get_next_time_delta, set_time,
  add_time,
}
use footstone.Scheduler.{Heap, Group, Worker}

-- `GetPriority`: the uint32_t goes to int32_t, and is negative from 2 ^ 31 on.
unfoldable pub get_priority : Runner → ℤ
get_priority r =
    let bits = r.priority % 0x100000000 in
    if ltb bits 0x80000000 then pos bits else negsuc (0xffffffff - bits)

-- `lhs[0]->GetPriority() * lhs[0]->GetTime().ToNanoseconds()`, in int64_t
unfoldable pub sort_key : Heap → Group → Outcome ℤ
unfolding int64 get_priority
sort_key heap [] = fault failed_check
sort_key heap (r ∷ group) = int64 (get_priority (heap r) *ℤ (heap r).time)

unfoldable pub with_keys : Heap → List Group → Outcome (List (ℤ × Group))
unfolding sort_key
with_keys heap [] = ok []
with_keys heap (group ∷ groups) = do
  key ← sort_key heap group
  rest ← with_keys heap groups
  ok ((key, group) ∷ rest)

-- In front of the first element that is not less: sorting from the back, this is stable.
unfoldable pub insert_group : ℤ × Group → List (ℤ × Group) → List (ℤ × Group)
insert_group e [] = e ∷ []
insert_group (k, g) ((k', g') ∷ sorted) =
    if ltb_ℤ k' k then (k', g') ∷ insert_group (k, g) sorted else (k, g) ∷ (k', g') ∷ sorted

unfoldable pub sort_groups : List (ℤ × Group) → List (ℤ × Group)
unfolding insert_group
sort_groups [] = []
sort_groups (e ∷ keyed) = insert_group e (sort_groups keyed)

abbrev pub groups_of : List (ℤ × Group) → List Group
groups_of [] = []
groups_of ((_, g) ∷ keyed) = g ∷ groups_of keyed

-- `SortNoLock`, by `std::list::sort`, which is stable and compares every element of a list of two or more:
-- a group that the comparison cannot read fails the call.
unfoldable pub sort_no_lock : Heap → Worker → Outcome Worker
unfolding with_keys sort_groups
sort_no_lock heap w =
    if ltb 1 (length w.running_groups)
    then (with_keys heap w.running_groups >>= λ keyed.
        ok (record w { running_groups = groups_of (sort_groups keyed) }))
    else ok w

-- The time of the runner at the front.
unfoldable pub front_time : Heap → List Group → Outcome Delta
front_time heap [] = ok zero_delta
front_time heap ([] ∷ groups) = fault out_of_range
front_time heap ((r ∷ _) ∷ groups) = ok (heap r).time

unfoldable pub set_times : Delta → Group → Heap → Heap
unfolding write set_time
set_times time [] heap = heap
set_times time (r ∷ group) heap = set_times time group (write r (set_time (heap r) time) heap)

unfoldable pub set_group_times : Delta → List Group → Heap → Heap
unfolding set_times
set_group_times time [] heap = heap
set_group_times time (group ∷ groups) heap = set_group_times time groups (set_times time group heap)

-- `BalanceNoLock`: the pending groups go in front of the running ones.
unfoldable pub balance_no_lock : Heap → Worker → Outcome (Heap × Worker)
unfolding front_time set_group_times
balance_no_lock heap w = elim w.pending_groups [
  | [] ↦ ok (heap, w)
  | group ∷ groups ↦ do
    time ← front_time heap w.running_groups
    ok (
      set_group_times time (group ∷ groups) heap,
      record w { running_groups = (group ∷ groups) ++ w.running_groups; pending_groups = [] },
    )
]

-- `front()` and `back()` of a vector.
unfoldable pub front {ℓ} : {A : Type ℓ} → List A → Outcome A
front [] = fault out_of_range
front (x ∷ xs) = ok x

unfoldable pub back {ℓ} : {A : Type ℓ} → List A → Outcome A
back [] = fault out_of_range
back (x ∷ xs) = elim xs [ [] ↦ ok x | _ ∷ _ ↦ back xs ]

-- The shortest wait so far, and the time at which it ends.
unfoldable pub note_wait : Worker → Point → Delta → Outcome Worker
note_wait w now wait =
    if time_lt wait w.min_wait_time
    then (point_plus_delta now wait >>= λ next.
        ok (record w { min_wait_time = wait; next_task_time = next }))
    else ok w

-- `if (!idle_task) { idle_task = front->PopIdleTask(); }`
unfoldable pub take_idle : Option IdleTask → ℕ → Heap → Option IdleTask × Heap
take_idle (some idle) r heap = (some idle, heap)
take_idle none r heap = let (idle, r') = pop_idle_task (heap r) in (idle, write r r' heap)

-- What the loop over the groups ends with.
pub record Scan : Type 0 where
  pub heap : Heap
  pub worker : Worker
  pub task : Option Task
  pub idle_task : Option IdleTask

unfoldable pub scan_groups : List Group → Point → Heap → Worker → Option IdleTask → Outcome Scan
unfolding front back note_wait take_idle
scan_groups [] now heap w idle =
    ok (record { heap = heap; worker = w; task = none; idle_task = idle })
scan_groups (group ∷ groups) now heap w idle = do
  last ← back group
  first ← front group
  let (task, r) = get_next (heap last) now
  let heap' = write last r heap
  elim task [
    | some t ↦ ok (record {
      heap = heap';
      worker = record w { curr_group = group; local_runner = some last };
      task = some t;
      idle_task = idle;
    })
    | none ↦ do
      let (idle', heap'') = take_idle idle first heap'
      wait ← get_next_time_delta (heap'' first) now
      w' ← note_wait w now wait
      scan_groups groups now heap'' w' idle'
  ]

-- What `GetNextTask` returns: a task, a wrapped idle task, or null, at once or after `WaitFor`.
pub data Next : Type 0 where
  run : Task → Next
  run_idle : IdleTask → IdleParam → Next
  nothing : Next
  wait : Delta → Next

abbrev pub task_of : Option Task → Next
task_of none = nothing
task_of (some t) = run t

-- The end of `GetNextTask`.
unfoldable pub after_scan : Scan → Next
after_scan s = elim s.task [
  | some t ↦ run t
  | none ↦ if not s.worker.is_terminated then nothing else elim s.idle_task [
    | none ↦ wait s.worker.min_wait_time
    | some i ↦ run_idle i (record { did_time_out = false; res_time = s.worker.min_wait_time })
  ]
]

unfoldable pub balance_if_needed : Heap → Worker → Outcome (Heap × Worker)
unfolding balance_no_lock
balance_if_needed heap w =
    if w.need_balance
    then (balance_no_lock heap w >>= λ p. ok (p.0, record p.1 { need_balance = false }))
    else ok (heap, w)

unfoldable pub get_next_task : Heap → Worker → Point → Outcome (Heap × Worker × Next)
unfolding sort_no_lock balance_if_needed scan_groups after_scan
get_next_task heap w now = elim w.immediate_task_queue [
  | task ∷ tasks ↦ ok (heap, record w { immediate_task_queue = tasks }, task_of task)
  | [] ↦ do
    w1 ← sort_no_lock heap w
    p ← balance_if_needed heap w1
    s ← scan_groups p.1.running_groups now p.0 p.1 none
    ok (s.heap, s.worker, after_scan s)
]

-- The time of a task goes to every runner of `curr_group`.
unfoldable pub charge : Delta → Group → Heap → Outcome Heap
unfolding add_time
charge spent [] heap = ok heap
charge spent (r ∷ group) heap = do
  r' ← add_time (heap r) spent
  charge spent group (write r r' heap)

-- `RunTask`, and whether the worker goes on. What a task does while it runs is an argument, as are the
-- times at which it begins and ends.
unfoldable pub run_task :
    (Next → Heap × Worker → Heap × Worker)
    → Point
    → Point
    → Point
    → Heap
    → Worker
    → Outcome (Heap × Worker × Bool)
unfolding get_next_task charge
run_task effect now begin end heap w = do
  p ← get_next_task heap w now
  let idles = ok (p.0, p.1, not p.1.is_terminated)
  let runs = do
    let q = effect p.2 (p.0, p.1)
    spent ← point_minus end begin
    heap' ← charge spent q.1.curr_group q.0
    ok (heap', q.1, true)
  elim p.2 [ run _ ↦ runs | run_idle _ _ ↦ runs | nothing ↦ idles | wait _ ↦ idles ]
