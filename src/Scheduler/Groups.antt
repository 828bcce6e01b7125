-- ===== src/Scheduler/Groups.antt =====
-- `BalanceNoLock`: how pending groups join the running ones.
use footstone.Base.{ℕ, ◌≡◌, ◌≢◌, refl, ap, ◌∙◌, List, [], ◌∷◌, ◌++◌, ok, fault, out_of_range, arith}
use footstone.Base.Store.{write}
use footstone.Time.{Delta}
use footstone.Runner.{set_time}
use footstone.Scheduler.{Heap, Group, Worker}
use footstone.Scheduler.Next.{balance_no_lock, front_time, set_times, set_group_times}

set_times_keeps :
    (time : Delta) (group : Group) (heap : Heap) (r : ℕ)
    → (heap r).time ≡ time
    → (set_times time group heap r).time ≡ time
unfolding set_times write set_time
set_times_keeps time [] heap r e = e
set_times_keeps time (s ∷ group) heap r e =
    set_times_keeps time group (write s (set_time (heap s) time) heap) r (ground arith)

set_times_rest :
    (time : Delta) (group : Group) (heap : Heap) (r : ℕ)
    → set_times time group heap r ≡ set_time (heap r) (set_times time group heap r).time
unfolding set_times write set_time
set_times_rest time [] heap r = refl
set_times_rest time (s ∷ group) heap r =
    set_times_rest time group (write s (set_time (heap s) time) heap) r ∙ ground arith

-- Every runner of these groups has this time.
abbrev pub GroupHas : Delta → Heap → Group → Type 0
GroupHas time heap [] = Unit {0}
GroupHas time heap (r ∷ group) = ((heap r).time ≡ time) × GroupHas time heap group

abbrev pub AllHave : Delta → Heap → List Group → Type 0
AllHave time heap [] = Unit {0}
AllHave time heap (g ∷ groups) = GroupHas time heap g × AllHave time heap groups

GroupHas-keeps :
    (time : Delta) (heap heap' : Heap) (group : Group)
    → ((r : ℕ) → (heap r).time ≡ time → (heap' r).time ≡ time)
    → GroupHas time heap group
    → GroupHas time heap' group
GroupHas-keeps time heap heap' [] keep has = tt
GroupHas-keeps time heap heap' (r ∷ group) keep (e, has) =
    (keep r e, GroupHas-keeps time heap heap' group keep has)

set_times-GroupHas :
    (time : Delta) (group : Group) (heap : Heap) → GroupHas time (set_times time group heap) group
unfolding set_times write set_time
set_times-GroupHas time [] heap = tt
set_times-GroupHas time (s ∷ group) heap = (
  set_times_keeps time group (write s (set_time (heap s) time) heap) s (ground arith),
  set_times-GroupHas time group (write s (set_time (heap s) time) heap),
)

set_group_times_keeps :
    (time : Delta) (groups : List Group) (heap : Heap) (r : ℕ)
    → (heap r).time ≡ time
    → (set_group_times time groups heap r).time ≡ time
unfolding set_group_times
set_group_times_keeps time [] heap r e = e
set_group_times_keeps time (g ∷ groups) heap r e =
    set_group_times_keeps time groups (set_times time g heap) r (set_times_keeps time g heap r e)

set_group_times-AllHave :
    (time : Delta) (groups : List Group) (heap : Heap)
    → AllHave time (set_group_times time groups heap) groups
unfolding set_group_times
set_group_times-AllHave time [] heap = tt
set_group_times-AllHave time (g ∷ groups) heap = (
  GroupHas-keeps time (set_times time g heap) (set_group_times time groups (set_times time g heap))
      g (set_group_times_keeps time groups (set_times time g heap))
      (set_times-GroupHas time g heap),
  set_group_times-AllHave time groups (set_times time g heap),
)

set_group_times_rest :
    (time : Delta) (groups : List Group) (heap : Heap) (r : ℕ)
    → set_group_times time groups heap r
      ≡ set_time (heap r) (set_group_times time groups heap r).time
unfolding set_group_times set_time
set_group_times_rest time [] heap r = refl
set_group_times_rest time (g ∷ groups) heap r =
    set_group_times_rest time groups (set_times time g heap) r
    ∙ ap (λ q. set_time q (set_group_times time groups (set_times time g heap) r).time)
        (set_times_rest time g heap r)

balanced :
    (heap : Heap) (w : Worker) (pending : List Group) (time : Delta)
    → pending ≢ []
    → w.pending_groups ≡ pending
    → front_time heap w.running_groups ≡ ok time
    → balance_no_lock heap w
      ≡ ok (
        set_group_times time pending heap,
        record w { running_groups = pending ++ w.running_groups; pending_groups = [] },
      )
unfolding balance_no_lock
balanced heap w [] time ne p e = absurd (ne refl)
balanced heap w (g ∷ groups) time ne p e = rw (p, balance_no_lock, e) refl

stuck :
    (heap : Heap) (w : Worker) (pending : List Group)
    → pending ≢ []
    → w.pending_groups ≡ pending
    → front_time heap w.running_groups ≡ fault out_of_range
    → balance_no_lock heap w ≡ fault out_of_range
unfolding balance_no_lock
stuck heap w [] ne p e = absurd (ne refl)
stuck heap w (g ∷ groups) ne p e = rw (p, balance_no_lock, e) refl

unchanged :
    (heap : Heap) (w : Worker) → w.pending_groups ≡ [] → balance_no_lock heap w ≡ ok (heap, w)
unfolding balance_no_lock
unchanged heap w e = ground arith

-- `BalanceNoLock` does nothing where nothing is pending. Else it puts the pending groups in front of
-- all running ones, gives each of their runners the time of the first running runner (or zero), and
-- changes no runner in another field; it is undefined if the first running group is empty.
balance_no_lock_lem :
    (heap : Heap) (w : Worker)
    → (w.pending_groups ≡ [] → balance_no_lock heap w ≡ ok (heap, w))
      × ((time : Delta)
          → w.pending_groups ≢ []
          → front_time heap w.running_groups ≡ ok time
          → (heap' : Heap) × (balance_no_lock heap w
              ≡ ok (
                heap',
                record w {
                  running_groups = w.pending_groups ++ w.running_groups;
                  pending_groups = [];
                },
              ))
            × AllHave time heap' w.pending_groups
            × ((r : ℕ) → heap' r ≡ set_time (heap r) (heap' r).time))
      × (w.pending_groups ≢ []
          → front_time heap w.running_groups ≡ fault out_of_range
          → balance_no_lock heap w ≡ fault out_of_range)
balance_no_lock_lem heap w = (
  unchanged heap w,
  λ time ne e. (
    set_group_times time w.pending_groups heap,
    balanced heap w w.pending_groups time ne refl e,
    set_group_times-AllHave time w.pending_groups heap,
    set_group_times_rest time w.pending_groups heap,
  ),
  λ ne e. stuck heap w w.pending_groups ne refl e,
)
