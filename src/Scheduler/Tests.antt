-- ===== src/Scheduler/Tests.antt =====
-- A worker with two runners, and instances of the theorems about workers.
use mathlib.Core.List.{Perm}
use footstone.Base.{
  ℕ, ◌⊎◌, ◌≡◌, refl, true, false, [], ◌∷◌, List, none, some, length, ok, ◌==◌, if◌then◌else◌, ◌>>=◌,
}
use footstone.Base.Int.{pos, negsuc, ◌*ℤ◌}
use footstone.Base.Store.{write}
use footstone.Time.{int64}
use footstone.Runner.{Runner, get_next, pop_front, move_due, pop_due}
use footstone.Scheduler.Subs.{add_sub_task_runner, remove_sub_task_runner}
use footstone.Scheduler.SubRounds.{remove-add_sub_task_runner}
use footstone.Scheduler.{Heap, has_id, Group, Worker, find_group, un_bind}
use footstone.Scheduler.Next.{
  run, sort_no_lock, sort_key, get_priority, get_next_task, with_keys, sort_groups, insert_group,
  balance_if_needed, scan_groups, after_scan, back, front,
}
use footstone.Scheduler.Binding.{runners}
use footstone.Scheduler.Unbinding.{un_bind_lem}
use footstone.Scheduler.Sorting.{InOrder, sort_no_lock_lem}
use footstone.Scheduler.Picks.{is_eager, never_idle}

-- Runner 1 has run for 9 and the others for 4; runner 2 has a task.
abbrev runner : ℕ → Runner
runner i = record {
  id = i;
  group_id = 0;
  priority = 1;
  is_schedulable = true;
  has_sub_runner = false;
  time = pos (if i == 1 then 9 else 4);
  worker = some 0;
  task_queue = if i == 2 then some (record { id = 20; unit = some 5 }) ∷ [] else [];
  idle_task_queue = [];
  delayed_task_queue = [];
}

abbrev plain : Worker
plain = record {
  is_schedulable = true;
  is_terminated = false;
  need_balance = false;
  group_id = 0;
  running_groups = (1 ∷ []) ∷ (2 ∷ []) ∷ [];
  pending_groups = (3 ∷ []) ∷ [];
  immediate_task_queue = [];
  min_wait_time = pos 100;
  next_task_time = pos 100;
  local_runner = none;
  curr_group = [];
  notified = 0;
}

sort_no_lock_lem_example :
    (sorted : List Group) × (sort_no_lock runner plain
      ≡ ok (record plain { running_groups = sorted }))
    × Perm sorted plain.running_groups
    × InOrder runner sorted
unfolding sort_key get_priority int64 ◌*ℤ◌
sort_no_lock_lem_example = sort_no_lock_lem runner plain ((pos 9, refl), ((pos 4, refl), tt))

-- The group with the shorter running time comes first.
sorted_plain :
    sort_no_lock runner plain ≡ ok (record plain { running_groups = (2 ∷ []) ∷ (1 ∷ []) ∷ [] })
unfolding sort_no_lock with_keys sort_groups insert_group sort_key get_priority int64 ◌*ℤ◌
sorted_plain = refl

-- The priority 2 ^ 32 - 1 is -1: the group with the longer running time then comes first.
sort_key-wraps :
    sort_key (λ i. record (runner i) { priority = 0xffffffff }) (1 ∷ []) ≡ ok (negsuc 8)
unfolding sort_key get_priority int64 ◌*ℤ◌
sort_key-wraps = refl

un_bind_lem_example :
    let w' = un_bind runner plain 2 in
    ((find_group runner (runner 2).id plain.running_groups ≡ false)
      × (find_group runner (runner 2).id plain.pending_groups ≡ false)
      × (w' ≡ plain))
    ⊎ ((r : ℕ) × ((runner r).id ≡ (runner 2).id)
        × Perm (runners plain) (r ∷ runners w')
        × (length w'.running_groups ≡ length plain.running_groups)
        × (length w'.pending_groups ≡ length plain.pending_groups))
un_bind_lem_example = un_bind_lem runner plain 2

abbrev lone : Worker
lone = record plain { running_groups = (2 ∷ []) ∷ [] }

abbrev ran : Worker
ran = record lone { local_runner = some 2; curr_group = 2 ∷ [] }

next_of_lone :
    get_next_task runner lone (pos 50)
    ≡ ok (
      write 2 (get_next (runner 2) (pos 50)).1 runner,
      ran,
      run (record { id = 20; unit = some 5 }),
    )
unfolding get_next_task sort_no_lock balance_if_needed scan_groups after_scan back front get_next
    pop_front move_due pop_due
next_of_lone = refl

never_idle_example : is_eager (run (record { id = 20; unit = some 5 })) ≡ true
never_idle_example =
    never_idle runner (write 2 (get_next (runner 2) (pos 50)).1 runner) lone ran (pos 50)
      (run (record { id = 20; unit = some 5 })) refl next_of_lone

remove-add_sub_task_runner_example :
    (heap' : Heap) × ((add_sub_task_runner 0 (λ _ p. p) (λ _. pos 0) runner (some plain) 3 4 false
        >>= λ p. ok (remove_sub_task_runner p.0 p.1 3 (some 4)))
      ≡ ok (heap', some (record plain { notified = 1 }), true))
    × ((heap' 3).has_sub_runner ≡ false)
unfolding find_group has_id
remove-add_sub_task_runner_example =
    remove-add_sub_task_runner 0 (λ _ p. p) (λ _. pos 0) runner plain 3 4 refl refl refl
