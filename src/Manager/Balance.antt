-- ===== src/Manager/Balance.antt =====
-- src/footstone/worker_manager.cc: `Resize`, `AddWorker` and `Balance`. `move_task id from to` is the task
-- that `MoveTaskRunnerSpecificNoLock` makes, and `debug` says whether TDF_BASE_DCHECK is compiled in.
use footstone.Base.{
  ℕ, zero, suc, ◌+◌, ◌-◌, ◌/◌, Bool, true, false, not, ◌&&◌, ◌||◌, List, [], ◌∷◌, ◌++◌, map, Option,
  none, some, get_elem?, get_or, set, take, drop, length, ltb, leb, ◌==◌, if◌then◌else◌, Outcome,
  ok, fault, out_of_range, failed_check, or_fault, require, ◌>>=◌, ◌>>◌,
}
use footstone.Base.Store.{write}
use footstone.Runner.{Task}
use footstone.Scheduler.{
  Heap, Group, Worker, bind, bind_list, un_bind_all, has_unschedulable_runner,
  get_running_group_size, retain_active_and_unschedulable, add_immediate_task,
}
use footstone.Manager.{Manager, create_workers, terminate_worker, take_specifics, give_specifics}

-- `RetainActiveAndUnschedulable` of each worker, and the groups that they give up.
unfoldable pub retain_all : Heap → List Worker → Outcome (List Worker × List Group)
retain_all heap [] = ok ([], [])
retain_all heap (w ∷ ws) = do
  p ← retain_active_and_unschedulable heap w
  q ← retain_all heap ws
  ok (p.0 ∷ q.0, p.1 ++ q.1)

-- `groups_size`
unfoldable pub running_sizes : List Worker → ℕ
unfolding get_running_group_size
running_sizes [] = 0
running_sizes (w ∷ ws) = get_running_group_size w + running_sizes ws

-- The groups for a worker, and the others. `cnt < groups.size()` compares a number that may be negative, as
-- one without a sign: it is then greater than every size.
unfoldable pub share : ℕ → ℕ → List Group → List Group × List Group
share resize_group_size cur groups =
    if ltb resize_group_size cur
    then (groups, [])
    else let cnt = resize_group_size - cur in
      if ltb cnt (length groups) then (take cnt groups, drop cnt groups) else (groups, [])

module _ (move_task : ℕ → ℕ → ℕ → Task) (heap : Heap) where
  -- Hands a task for each runner to the worker that the runner has had so far.
  unfoldable pub announce_group : ℕ → Group → List Worker → Outcome (List Worker)
  announce_group to [] ws = ok ws
  announce_group to (r ∷ group) ws = do
    from ← or_fault failed_check (heap r).worker
    w ← or_fault out_of_range (get_elem? ws from)
    announce_group to group
        (set ws from (add_immediate_task w (some (move_task (heap r).id from to))))

  unfoldable pub announce_groups : ℕ → List Group → List Worker → Outcome (List Worker)
  unfolding announce_group
  announce_groups to [] ws = ok ws
  announce_groups to (group ∷ groups) ws = do
    ws' ← announce_group to group ws
    announce_groups to groups ws'

  -- The loop over the workers at the given places; it ends with the groups that it has given to none.
  unfoldable pub allot :
      ℕ → List ℕ → List ℕ → List Group → List Worker → Outcome (List Worker × List Group)
  unfolding share announce_groups
  allot resize_group_size curs [] groups ws = ok (ws, groups)
  allot resize_group_size curs (i ∷ places) groups ws = do
    let (list, rest) = share resize_group_size (get_or curs i 0) groups
    ws' ← announce_groups i list ws
    w ← or_fault out_of_range (get_elem? ws' i)
    allot resize_group_size curs places rest (set ws' i (bind_list w list))

abbrev pub count_up : ℕ → ℕ → List ℕ
count_up from zero = []
count_up from (suc n) = from ∷ count_up (suc from) n

-- `Balance` by a positive number: the new workers come first, then the old ones. The groups that are left
-- in the local list are destroyed with it, and the old workers stay the `worker_` of the runners.
unfoldable pub balance_more : (ℕ → ℕ → ℕ → Task) → Manager → ℕ → Outcome Manager
unfolding retain_all running_sizes allot
balance_more move_task m increase = do
  let size = m.size + increase
  require (leb size (length m.workers)) out_of_range
  let old = take m.size m.workers
  p ← retain_all m.heap old
  let resize_group_size = running_sizes old / size
  let curs = map get_running_group_size p.0
  let places = count_up m.size increase ++ count_up 0 m.size
  q ← allot move_task m.heap resize_group_size curs places p.1 (p.0 ++ drop m.size m.workers)
  ok (record m { workers = q.0; index = m.size; size = size })

-- `for (int i = size_ - 1; i > 0 || reduce_size > 0; --i)`, by `i + 1`. The number `reduced` counts the
-- workers whose groups were taken, so `reduce_size` is `reduce - reduced`, which may be negative.
unfoldable pub un_bind_down :
    Heap → ℕ → ℕ → ℕ → List Worker → Outcome (List Worker × List Group × ℕ)
un_bind_down heap reduce zero reduced ws =
    if ltb reduced reduce then fault out_of_range else ok (ws, [], reduced)
un_bind_down heap reduce (suc i) reduced ws = elim ((i == 0) && not (ltb reduced reduce)) [
  | true ↦ ok (ws, [], reduced)
  | false ↦ do
    w ← or_fault out_of_range (get_elem? ws i)
    elim (has_unschedulable_runner heap w) [
      | true ↦ un_bind_down heap reduce i reduced ws
      | false ↦ do
        let (w', groups) = un_bind_all w
        p ← un_bind_down heap reduce i (reduced + 1) (set ws i w')
        ok (p.0, groups ++ p.1, p.2)
    ]
]

-- The values of the runner with this id go from the worker that it has had so far, if any, to the one at `i`.
unfoldable pub carry_specifics : ℕ → ℕ → Option ℕ → Manager → Manager
unfolding take_specifics give_specifics
carry_specifics id i none m = m
carry_specifics id i (some from) m =
    let (m', keys, values) = take_specifics m from id in give_specifics m' i id keys values

-- It does so for each runner of a group, whose worker is the one at `i` then.
unfoldable pub adopt_group : ℕ → Group → Manager → Manager
unfolding carry_specifics
adopt_group i [] m = m
adopt_group i (r ∷ group) m =
    let m' = carry_specifics (m.heap r).id i (m.heap r).worker m in
    adopt_group i group
      (record m' { heap = write r (record (m.heap r) { worker = some i }) m'.heap })

-- The loop that binds the groups again, one worker after the other.
unfoldable pub bind_again : ℕ → List Group → Manager → Outcome Manager
unfolding adopt_group
bind_again size [] m = ok m
bind_again size (group ∷ groups) m = do
  w ← or_fault out_of_range (get_elem? m.workers m.index)
  w' ← bind m.heap w group
  let m' = adopt_group m.index group (record m { workers = set m.workers m.index w' })
  bind_again size groups (record m' { index = if size == 1 then m.index + 1 else 0 })

abbrev but_last : List Worker → List Worker
but_last [] = []
but_last (w ∷ ws) = elim ws [ [] ↦ [] | _ ∷ _ ↦ w ∷ but_last ws ]

abbrev last_one : List Worker → List Worker
last_one [] = []
last_one (w ∷ ws) = elim ws [ [] ↦ w ∷ [] | _ ∷ _ ↦ last_one ws ]

-- `for (int i = size_ - 1; i > size - 1; --i)`, by `i + 1`: terminates the worker at `i`, and removes the last.
unfoldable pub pop_workers : ℕ → ℕ → Manager → Outcome Manager
unfolding terminate_worker
pop_workers size zero m = ok m
pop_workers size (suc i) m = elim (ltb i size) [
  | true ↦ ok m
  | false ↦ do
    w ← or_fault out_of_range (get_elem? m.workers i)
    let ws = set m.workers i (terminate_worker w)
    pop_workers size i (record m { workers = but_last ws; stopped = m.stopped ++ last_one ws })
]

-- `Balance` by a number that is not positive, `reduce` below it. `size_` has its new value when the loop that
-- removes workers starts from it.
unfoldable pub balance_less : Bool → Manager → ℕ → Outcome Manager
unfolding retain_all un_bind_down bind_again pop_workers
balance_less debug m reduce = do
  let size = m.size - reduce
  require (ltb reduce m.size) failed_check
  p ← un_bind_down m.heap reduce m.size 0 m.workers
  require (not debug || (p.2 == reduce)) failed_check
  q ← retain_all m.heap (take size p.0)
  let index = if leb size m.index then 0 else m.index
  let workers = q.0 ++ drop size p.0
  m' ← bind_again size (p.1 ++ q.1) (record m { workers = workers; index = index })
  let m'' = record m' { size = size }
  pop_workers size m''.size m''

-- `Resize`; `group_id` is for the workers that it creates.
unfoldable pub resize : (ℕ → ℕ → ℕ → Task) → Bool → ℕ → Manager → ℕ → Outcome Manager
unfolding balance_more balance_less
resize move_task debug group_id m size =
    if size == m.size
    then ok m
    else if ltb m.size size
    then balance_more move_task (create_workers group_id m (size - m.size)) (size - m.size)
    else balance_less debug m (m.size - size)

unfoldable pub add_worker : (ℕ → ℕ → ℕ → Task) → Manager → Worker → Outcome Manager
unfolding balance_more
add_worker move_task m worker =
    balance_more move_task (record m { workers = m.workers ++ (worker ∷ []) }) 1
