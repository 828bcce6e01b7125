-- ===== src/Scheduler/Binding.antt =====
-- Who is in the groups of a worker after `BindGroup`, `UnBind`, `RetainActiveAndUnschedulable` and `Retain`.
use mathlib.Core.List.Perm
use mathlib.Core.List.{Perm, perm_middle, perm-append_left_iff, perm-append_right_iff}
use footstone.Base.{
  ℕ, ◌≡◌, refl, sym, ap, ◌∙◌, ◌⊎◌, inl, inr, Bool, true, false, Bool-cases, none, some, List, [],
  ◌∷◌, ◌++◌, append_assoc, length, ok, fault, out_of_range, bad_iterator, arith, ◌&&◌, suc,
  if◌then◌else◌,
}
use footstone.Time.{Point}
use footstone.Scheduler.{
  Heap, Group, Worker, any_schedulable, has_id, push_child, bind_group, retain_groups,
  retain_active_and_unschedulable, find_group, retain,
}
use footstone.Scheduler.Next.{get_next_task, sort_no_lock, balance_if_needed, scan_groups, back}

-- All runners of a list of groups.
abbrev pub members : List Group → List ℕ
members [] = []
members (g ∷ groups) = g ++ members groups

pub members-append : (gs hs : List Group) → members (gs ++ hs) ≡ members gs ++ members hs
members-append [] hs = refl
members-append (g ∷ gs) hs =
    ap (λ l. g ++ l) (members-append gs hs) ∙ sym (append_assoc g (members gs) (members hs))

-- The runners of a worker, running or pending.
abbrev pub runners : Worker → List ℕ
runners w = members w.running_groups ++ members w.pending_groups

pub push_child_lem :
    (heap : Heap) (id child : ℕ) (groups : List Group)
    → ((push_child heap id child groups ≡ none) × (find_group heap id groups ≡ false))
      ⊎ ((groups' : List Group) × (push_child heap id child groups ≡ some groups')
          × Perm (members groups') (child ∷ members groups)
          × (find_group heap id groups ≡ true)
          × (length groups' ≡ length groups))
unfolding push_child find_group
push_child_lem heap id child [] = inl (refl, refl)
push_child_lem heap id child (g ∷ groups) = elim (Bool-cases (has_id heap id g)) [
  | inl e ↦ inr (
    (g ++ (child ∷ [])) ∷ groups,
    rw e refl,
    rw append_assoc (perm_middle g (members groups)),
    rw e refl,
    refl,
  )
  | inr e ↦ elim (push_child_lem heap id child groups) [
    | inl (nowhere, absent) ↦ inl (rw (e, nowhere) refl, rw (e, absent) refl)
    | inr (groups', done, perm, present, same) ↦ inr (
      g ∷ groups',
      rw (e, done) refl,
      Perm.trans ((perm-append_left_iff g).1 perm) (perm_middle g (members groups)),
      rw (e, present) refl,
      ap suc same,
    )
  ]
]

-- Every group has a schedulable runner.
abbrev pub all_schedulable : Heap → List Group → Bool
all_schedulable heap [] = true
all_schedulable heap (g ∷ groups) = any_schedulable heap g && all_schedulable heap groups

retain_groups_lem :
    (heap : Heap) (groups : List Group)
    → retain_groups heap groups
      ≡ (if all_schedulable heap groups then ok groups else fault bad_iterator)
unfolding retain_groups
retain_groups_lem heap [] = refl
retain_groups_lem heap (g ∷ groups) = ground (arith, retain_groups_lem heap groups)

-- `RetainActiveAndUnschedulable` is undefined as soon as a group behind the first has no schedulable
-- runner. Else it releases the pending groups and nothing else.
pub retain_active_outcomes :
    (heap : Heap) (w : Worker) (g : Group) (groups : List Group)
    → w.running_groups ≡ g ∷ groups
    → (all_schedulable heap groups ≡ true
        → retain_active_and_unschedulable heap w
          ≡ ok (record w { pending_groups = [] }, w.pending_groups))
      × (all_schedulable heap groups ≡ false
          → retain_active_and_unschedulable heap w ≡ fault bad_iterator)
unfolding retain_active_and_unschedulable
retain_active_outcomes heap w g groups e = (
  λ t. ground (arith, retain_groups_lem heap groups),
  λ f. ground (arith, retain_groups_lem heap groups),
)

-- `Retain` of a runner that runs on the worker is undefined. Of any other runner it returns every running
-- group, and leaves the worker one group without a runner, at which `GetNextTask` fails if there is no
-- immediate task and nothing to balance.
retain_outcomes :
    (heap : Heap) (w : Worker) (runner : ℕ) (now : Point)
    → (find_group heap (heap runner).id w.running_groups ≡ true
        → retain heap w runner ≡ fault bad_iterator)
      × (find_group heap (heap runner).id w.running_groups ≡ false
          → (w' : Worker) × (retain heap w runner ≡ ok (w', w.running_groups))
            × (w.immediate_task_queue ≡ []
                → w.need_balance ≡ false
                → get_next_task heap w' now ≡ fault out_of_range))
unfolding retain get_next_task sort_no_lock balance_if_needed scan_groups back
retain_outcomes heap w runner now = (
  λ e. rw (e, retain) refl,
  λ e. (
    record w { running_groups = [] ∷ [] },
    rw (e, retain) refl,
    λ no_task no_balance. rw (no_task, get_next_task, no_balance) refl,
  ),
)

-- `BindGroup` adds the child, and no other runner, to a group in which the father runs or, if he does not
-- run, is pending. It is undefined where the father is in no group of the worker.
bind_group_lem :
    (heap : Heap) (w : Worker) (father child : ℕ)
    → ((find_group heap father w.running_groups ≡ false)
        × (find_group heap father w.pending_groups ≡ false)
        × (bind_group heap w father child ≡ fault bad_iterator))
      ⊎ ((w' : Worker) × (bind_group heap w father child ≡ ok w')
          × Perm (runners w') (child ∷ runners w)
          × (length w'.running_groups ≡ length w.running_groups)
          × (length w'.pending_groups ≡ length w.pending_groups))
unfolding bind_group
bind_group_lem heap w father child = elim (push_child_lem heap father child w.running_groups) [
  | inr (groups, done, perm, present, same) ↦ inr (
    record w { running_groups = groups },
    rw (done, bind_group) refl,
    (perm-append_right_iff (members w.pending_groups)).1 perm,
    same,
    refl,
  )
  | inl (nowhere, absent) ↦ elim (push_child_lem heap father child w.pending_groups) [
    | inl (nowhere', absent') ↦ inl (absent, absent', rw (nowhere, bind_group, nowhere') refl)
    | inr (groups, done, perm, present, same) ↦ inr (
      record w { pending_groups = groups },
      rw (nowhere, bind_group, done) refl,
      Perm.trans ((perm-append_left_iff (members w.running_groups)).1 perm)
          (perm_middle (members w.running_groups) (members w.pending_groups)),
      refl,
      same,
    )
  ]
]
