-- ===== src/Scheduler.antt =====
-- src/footstone/worker.cc and worker.h: the groups of runners that a `Worker` keeps, and who is in
-- them. A `shared_ptr<TaskRunner>` is an index of a store of runners. Each lock is held for one call,
-- so a call is one step. The child `Next` has the choice of the next task.
pub mod Next
pub mod Groups
pub mod Binding
pub mod Unbinding
pub mod Sorting
pub mod Picks
pub mod Subs
pub mod Erasing
pub mod SubRounds
mod Tests
use footstone.Base.{
  ℕ, ◌+◌, Bool, true, false, not, ◌||◌, List, [], ◌∷◌, ◌++◌, Option, none, some, length, ◌==◌,
  if◌then◌else◌, Outcome, ok, fault, out_of_range, bad_iterator, ◌>>=◌,
}
use footstone.Time.{Delta, Point, max_delta, max_point}
use footstone.Runner.{Runner, Task, default_group_id}

-- The runners that pointers lead to.
abbrev pub Heap : Type 0
Heap = ℕ → Runner

abbrev pub Group : Type 0
Group = List ℕ

-- The fields of `Worker` without its thread and its specific values, and two variables of its thread.
-- `notified` counts the calls of `Notify`. No constructor sets `group_id_`: it is an argument.
pub record Worker : Type 0 where
  pub is_schedulable : Bool
  pub is_terminated : Bool
  pub need_balance : Bool
  pub group_id : ℕ
  pub running_groups : List Group
  pub pending_groups : List Group
  pub immediate_task_queue : List (Option Task)
  pub min_wait_time : Delta
  pub next_task_time : Point
  pub local_runner : Option ℕ
  pub curr_group : Group
  pub notified : ℕ

unfoldable pub new_worker : Bool → ℕ → Worker
new_worker is_schedulable group_id = record {
  is_schedulable = is_schedulable;
  is_terminated = false;
  need_balance = false;
  group_id = group_id;
  running_groups = [];
  pending_groups = [];
  immediate_task_queue = [];
  min_wait_time = max_delta;
  next_task_time = max_point;
  local_runner = none;
  curr_group = [];
  notified = 0;
}

-- `IsSchedulable` of some runner of a group, and its negation.
unfoldable pub any_schedulable : Heap → Group → Bool
any_schedulable heap [] = false
any_schedulable heap (r ∷ group) = (heap r).is_schedulable || any_schedulable heap group

unfoldable pub any_unschedulable : Heap → Group → Bool
any_unschedulable heap [] = false
any_unschedulable heap (r ∷ group) = not (heap r).is_schedulable || any_unschedulable heap group

unfoldable pub in_groups : Heap → List Group → Bool
unfolding any_unschedulable
in_groups heap [] = false
in_groups heap (group ∷ groups) = any_unschedulable heap group || in_groups heap groups

unfoldable pub has_unschedulable_runner : Heap → Worker → Bool
unfolding in_groups
has_unschedulable_runner heap w = in_groups heap w.running_groups

-- A runner of a group has this id.
unfoldable pub has_id : Heap → ℕ → Group → Bool
has_id heap id [] = false
has_id heap id (r ∷ group) = (heap r).id == id || has_id heap id group

-- The first group with a runner of this id gets the child; `none` if there is no such group.
unfoldable pub push_child : Heap → ℕ → ℕ → List Group → Option (List Group)
unfolding has_id
push_child heap id child [] = none
push_child heap id child (group ∷ groups) =
    let later = push_child heap id child groups in
    if has_id heap id group
    then some ((group ++ (child ∷ [])) ∷ groups)
    else elim later [ none ↦ none | some groups' ↦ some (group ∷ groups') ]

-- `BindGroup`; with no such group it goes on with the end iterator.
unfoldable pub bind_group : Heap → Worker → ℕ → ℕ → Outcome Worker
unfolding push_child
bind_group heap w father child = elim (push_child heap father child w.running_groups) [
  | some groups ↦ ok (record w { running_groups = groups })
  | none ↦ elim (push_child heap father child w.pending_groups) [
    | some groups ↦ ok (record w { pending_groups = groups })
    | none ↦ fault bad_iterator
  ]
]

-- `Bind` of one group; it reads the first runner.
unfoldable pub bind : Heap → Worker → Group → Outcome Worker
bind heap w [] = fault out_of_range
bind heap w (r ∷ group) =
    let id = (heap r).group_id in
    ok (record w {
      group_id = if not (id == default_group_id) then id else w.group_id;
      pending_groups = w.pending_groups ++ ((r ∷ group) ∷ []);
      need_balance = true;
      notified = w.notified + 1;
    })

-- `Bind` of a list of groups.
unfoldable pub bind_list : Worker → List Group → Worker
bind_list w groups = record w {
  pending_groups = w.pending_groups ++ groups;
  need_balance = true;
  notified = w.notified + 1;
}

-- A group without its first runner of this id; `none` if it has none.
unfoldable pub erase_runner : Heap → ℕ → Group → Option Group
erase_runner heap id [] = none
erase_runner heap id (r ∷ group) =
    let later = erase_runner heap id group in
    if (heap r).id == id
    then some group
    else elim later [ none ↦ none | some group' ↦ some (r ∷ group') ]

unfoldable pub erase_from_groups : Heap → ℕ → List Group → Option (List Group)
unfolding erase_runner
erase_from_groups heap id [] = none
erase_from_groups heap id (group ∷ groups) =
    let later = erase_from_groups heap id groups in
    elim (erase_runner heap id group) [
      | some group' ↦ some (group' ∷ groups)
      | none ↦ elim later [ none ↦ none | some groups' ↦ some (group ∷ groups') ]
    ]

-- `UnBind` of a runner.
unfoldable pub un_bind : Heap → Worker → ℕ → Worker
unfolding erase_from_groups
un_bind heap w runner = elim (erase_from_groups heap (heap runner).id w.running_groups) [
  | some groups ↦ record w { running_groups = groups }
  | none ↦ elim (erase_from_groups heap (heap runner).id w.pending_groups) [
    | some groups ↦ record w { pending_groups = groups }
    | none ↦ w
  ]
]

unfoldable pub get_running_group_size : Worker → ℕ
get_running_group_size w = length w.running_groups

-- `UnBind` of all groups.
unfoldable pub un_bind_all : Worker → Worker × List Group
un_bind_all w =
    (record w { running_groups = []; pending_groups = [] }, w.running_groups ++ w.pending_groups)

unfoldable pub release_pending : Worker → Worker × List Group
release_pending w = (record w { pending_groups = [] }, w.pending_groups)

-- The loop of `RetainActiveAndUnschedulable` behind the first group. A group without a schedulable runner
-- is spliced into the result, and then `++group_it` leads to the end of the result, which is no end of
-- `running_groups_`: it is read as a group.
unfoldable pub retain_groups : Heap → List Group → Outcome (List Group)
unfolding any_schedulable
retain_groups heap [] = ok []
retain_groups heap (group ∷ groups) =
    let rest = retain_groups heap groups in
    if any_schedulable heap group
    then (rest >>= λ groups'. ok (group ∷ groups'))
    else fault bad_iterator

unfoldable pub retain_active_and_unschedulable : Heap → Worker → Outcome (Worker × List Group)
unfolding retain_groups
retain_active_and_unschedulable heap w = elim w.running_groups [
  | [] ↦ ok (record w { pending_groups = [] }, w.pending_groups)
  | group ∷ groups ↦ do
    groups' ← retain_groups heap groups
    ok (record w { running_groups = group ∷ groups'; pending_groups = [] }, w.pending_groups)
]

unfoldable pub find_group : Heap → ℕ → List Group → Bool
unfolding has_id
find_group heap id [] = false
find_group heap id (group ∷ groups) = has_id heap id group || find_group heap id groups

-- `Retain`: where the runner is found, `++group_it` moves an iterator that was erased. Else `group` is
-- still the empty vector.
unfoldable pub retain : Heap → Worker → ℕ → Outcome (Worker × List Group)
unfolding find_group
retain heap w runner =
    if find_group heap (heap runner).id w.running_groups
    then fault bad_iterator
    else ok (record w { running_groups = [] ∷ [] }, w.running_groups)

unfoldable pub add_immediate_task : Worker → Option Task → Worker
add_immediate_task w task = record w {
  immediate_task_queue = w.immediate_task_queue ++ (task ∷ []);
}
