-- ===== src/Runner.antt =====
-- src/footstone/task_runner.cc with task.h, task.cc, idle_task.h and idle_task.cc: the queues of one
-- `TaskRunner`. What it does through its worker's other functions is in `Scheduler`. A closure is a
-- number; a moved-from or null `unique_ptr` is `none`. A time that the code reads is an argument.
pub mod Delayed
pub mod Queues
mod Tests
use footstone.Base.{
  ℕ, zero, suc, ◌+◌, ◌%◌, ◌^◌, Bool, true, false, List, [], ◌∷◌, ◌++◌, Option, none, some, length,
  Outcome, ok, fault, bad_iterator, failed_check, or_fault, ◌>>=◌, if◌then◌else◌,
}
use footstone.Base.Int.{ℤ}
use footstone.Time.{
  Delta, Point, zero_delta, max_delta, time_lt, point_plus_delta, point_minus, delta_plus,
}

pub record Task : Type 0 where
  pub id : ℕ
  pub unit : Option ℕ

pub record IdleTask : Type 0 where
  pub id : ℕ
  pub unit : Option ℕ

-- `IdleCbParam`
pub record IdleParam : Type 0 where
  pub did_time_out : Bool
  pub res_time : Delta

abbrev pub id_mod : ℕ
id_mod = 2 ^ 32

-- The constructors take the next number of a global counter of 32 bits.
unfoldable pub new_task : ℕ → Option ℕ → Task × ℕ
new_task counter unit = (record { id = counter; unit = unit }, (counter + 1) % id_mod)

unfoldable pub new_idle_task : ℕ → Option ℕ → IdleTask × ℕ
new_idle_task counter unit = (record { id = counter; unit = unit }, (counter + 1) % id_mod)

-- The closures that `Run` calls, in order.
unfoldable pub run_task_unit : Task → List ℕ
run_task_unit t = elim t.unit [ none ↦ [] | some u ↦ u ∷ [] ]

unfoldable pub run_idle_unit : IdleTask → IdleParam → List (ℕ × IdleParam)
run_idle_unit t p = elim t.unit [ none ↦ [] | some u ↦ (u, p) ∷ [] ]

-- `DelayedEntry`: a deadline and a task, whose pointer may have been moved out.
abbrev pub Entry : Type 0
Entry = Point × Option Task

pub record Runner : Type 0 where
  pub id : ℕ
  pub group_id : ℕ
  pub priority : ℕ
  pub is_schedulable : Bool
  pub has_sub_runner : Bool
  pub time : Delta
  pub worker : Option ℕ
  pub task_queue : List (Option Task)
  pub idle_task_queue : List (Option IdleTask)
  pub delayed_task_queue : List Entry

abbrev pub default_group_id : ℕ
default_group_id = 0

-- The constructor; `counter` is `global_task_runner_id`.
unfoldable pub new_runner : ℕ → ℕ → ℕ → Bool → Runner × ℕ
new_runner counter group_id priority is_schedulable = (
  record {
    id = counter;
    group_id = group_id;
    priority = priority;
    is_schedulable = is_schedulable;
    has_sub_runner = false;
    time = zero_delta;
    worker = none;
    task_queue = [];
    idle_task_queue = [];
    delayed_task_queue = [];
  },
  (counter + 1) % id_mod,
)

unfoldable pub add_time : Runner → Delta → Outcome Runner
add_time r d = delta_plus r.time d >>= (λ t. ok (record r { time = t }))

unfoldable pub set_time : Runner → Delta → Runner
set_time r d = record r { time = d }

-- `NotifyWorker` fails its check if the worker is gone; its result is the worker to wake.
unfoldable pub notify_worker : Runner → Outcome ℕ
notify_worker r = or_fault failed_check r.worker

-- A post puts its task into a queue, and wakes the worker.
unfoldable pub post_task : Runner → Option Task → Outcome (Runner × ℕ)
unfolding notify_worker
post_task r task = do
  let r' = record r { task_queue = r.task_queue ++ (task ∷ []) }
  w ← notify_worker r'
  ok (r', w)

-- `std::priority_queue::push` by `DelayedEntryCompare`, with the earliest deadline on top. Among equal
-- deadlines the library leaves the order open; here the first in stays first.
unfoldable pub push_delayed : Entry → List Entry → List Entry
push_delayed e [] = e ∷ []
push_delayed (t, x) ((u, y) ∷ entries) =
    if time_lt t u then (t, x) ∷ (u, y) ∷ entries else (u, y) ∷ push_delayed (t, x) entries

unfoldable pub post_delayed_task : Runner → Option Task → Delta → Point → Outcome (Runner × ℕ)
unfolding push_delayed notify_worker
post_delayed_task r task delay now = do
  deadline ← point_plus_delta now delay
  let r' = record r { delayed_task_queue = push_delayed (deadline, task) r.delayed_task_queue }
  w ← notify_worker r'
  ok (r', w)

unfoldable pub post_idle_task : Runner → Option IdleTask → Outcome (Runner × ℕ)
unfolding notify_worker
post_idle_task r task = do
  let r' = record r { idle_task_queue = r.idle_task_queue ++ (task ∷ []) }
  w ← notify_worker r'
  ok (r', w)

-- The head of a queue, or null, and what is left of it.
unfoldable pub pop_front {ℓ} : {A : Type ℓ} → List (Option A) → Option A × List (Option A)
pop_front [] = (none, [])
pop_front (x ∷ q) = (x, q)

unfoldable pub pop_task : Runner → Option Task × Runner
unfolding pop_front
pop_task r = let (task, q) = pop_front r.task_queue in (task, record r { task_queue = q })

unfoldable pub pop_idle_task : Runner → Option IdleTask × Runner
unfolding pop_front
pop_idle_task r =
    let (task, q) = pop_front r.idle_task_queue in (task, record r { idle_task_queue = q })

-- `GetTopDelayTask` moves the task out of the top entry, and leaves the entry there.
unfoldable pub get_top_delay_task : Runner → Option Task × Runner
get_top_delay_task r = elim r.task_queue [
  | _ ∷ _ ↦ (none, r)
  | [] ↦ elim r.delayed_task_queue [
    | [] ↦ (none, r)
    | (t, x) ∷ entries ↦ (x, record r { delayed_task_queue = (t, none) ∷ entries })
  ]
]

-- `popTaskFromDelayedQueueNoLock`
unfoldable pub pop_due : Point → List Entry → Option Task × List Entry
pop_due now [] = (none, [])
pop_due now ((t, x) ∷ entries) = if time_lt now t then (none, (t, x) ∷ entries) else (x, entries)

-- `while (task) { push; task = pop… }`. Each round takes an entry away, so their number is fuel enough.
unfoldable pub move_due :
    ℕ → Point → Option Task → List (Option Task) → List Entry → List (Option Task) × List Entry
move_due zero now task q entries = (q, entries)
move_due (suc fuel) now task q entries = elim task [
  | none ↦ (q, entries)
  | some t ↦
      let (task', rest) = pop_due now entries in move_due fuel now task' (q ++ (some t ∷ [])) rest
]

-- `GetNext`: what is due goes behind the ready tasks, and the first of them comes out.
unfoldable pub get_next : Runner → Point → Option Task × Runner
get_next r now =
    let (task, rest) = pop_due now r.delayed_task_queue in
    let (q, rest') = move_due (suc (length rest)) now task r.task_queue rest in
    let (result, q') = pop_front q in
    (result, record r { task_queue = q'; delayed_task_queue = rest' })

unfoldable pub get_next_time_delta : Runner → Point → Outcome Delta
get_next_time_delta r now = elim r.delayed_task_queue [
  | [] ↦ ok max_delta
  | (t, _) ∷ _ ↦ point_minus t now
]

-- The third loop of `Clear`: `while (!idle_task_queue_.empty()) delayed_task_queue_.pop();`, where a pop
-- of an empty queue is undefined.
pub clear_idle : List (Option IdleTask) → List Entry → Outcome (List Entry)
clear_idle [] entries = ok entries
clear_idle (i ∷ idle) [] = fault bad_iterator
clear_idle (i ∷ idle) (e ∷ entries) = clear_idle (i ∷ idle) entries

-- A loop that pops until its queue is empty.
pub clear_queue {ℓ} : {A : Type ℓ} → List A → List A
clear_queue [] = []
clear_queue (x ∷ q) = clear_queue q

unfoldable pub clear : Runner → Outcome Runner
unfolding clear_queue clear_idle
clear r = do
  let q = clear_queue r.task_queue
  let d = clear_queue r.delayed_task_queue
  d' ← clear_idle r.idle_task_queue d
  ok (record r { task_queue = q; delayed_task_queue = d' })
