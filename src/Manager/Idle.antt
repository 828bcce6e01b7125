-- ===== src/Manager/Idle.antt =====
-- `Resize` to more workers where no worker runs a group yet.
use native.Mathlib.Nat.{zero-div}
use footstone.Base.{
  leb, append-nil, replicate, length-append, length-map, length-replicate, ℕ, zero, suc, ◌+◌, ◌-◌,
  ◌<◌, ◌≡◌, refl, ap, ◌∙◌, Bool, true, List, [], ◌∷◌, ◌++◌, map, some, get_elem?, get_or, set,
  length, length-set, length-append, length-map, length-replicate, le→leb, replicate, arith, eq→==,
  ok,
}
use footstone.Runner.{Task}
use footstone.Scheduler.{Heap, Group, Worker, bind_list, get_running_group_size, new_worker}
use footstone.Scheduler.Binding.{runners}
use footstone.Manager.Staff.{staff, Within, get_elem?-lt}
use footstone.Manager.Resizing.{
  retainable, pending, released, retain_all_lem, staff-new, take-append, drop-append, resize_more,
  count_up-Within,
}
use footstone.Manager.{Manager, create_workers}
use footstone.Manager.Balance.{
  share, announce_groups, allot, running_sizes, count_up, balance_more, resize,
}

staff-set_same :
    (ws : List Worker) (i : ℕ) (w w' : Worker)
    → get_elem? ws i ≡ some w
    → runners w' ≡ runners w
    → staff (set ws i w') ≡ staff ws
staff-set_same [] i w w' e same = refl
staff-set_same (v ∷ ws) zero w w' e same = let here : v ≡ w = cc in rw (same, here) refl
staff-set_same (v ∷ ws) (suc i) w w' e same =
    ap (λ l. runners v ++ l) (staff-set_same ws i w w' e same)

-- Where no worker is to get a group, none does.
allot_nothing :
    (move_task : ℕ → ℕ → ℕ → Task) (heap : Heap) (curs places : List ℕ) (groups : List Group)
    (ws : List Worker)
    → ((i : ℕ) → get_or curs i 0 ≡ 0)
    → Within (length ws) places
    → (ws' : List Worker) × (allot move_task heap 0 curs places groups ws ≡ ok (ws', groups))
      × (staff ws' ≡ staff ws)
      × (length ws' ≡ length ws)
unfolding allot share announce_groups bind_list
allot_nothing move_task heap curs [] groups ws none_yet within = (ws, refl, refl, refl)
allot_nothing move_task heap curs (i ∷ places) groups ws none_yet within =
    let here : i < length ws = within i (rw (eq→== i i refl) (omega arith)) in
    let (w, at) = get_elem?-lt ws i here in
    let len = length-set ws i (bind_list w []) in
    let (ws', done, same, len') =
      allot_nothing move_task heap curs places groups (set ws i (bind_list w [])) none_yet
        (λ j pos. rw len (within j (omega arith))) in
    (
      ws',
      rw (none_yet i, share_nothing, at) done,
      same ∙ staff-set_same ws i w (bind_list w []) at (rw (append-nil w.pending_groups) refl),
      len' ∙ len,
    )
  where
    share_nothing : share 0 0 groups ≡ ([], groups)
    share_nothing = ground arith

empty_of : (l : List Group) → length l ≡ 0 → l ≡ []
empty_of [] e = refl
empty_of (g ∷ l) e = absurd (omega (arith, e))

idle_sizes :
    (ws : List Worker) (i : ℕ)
    → running_sizes ws ≡ 0
    → get_or (map get_running_group_size (map released ws)) i 0 ≡ 0
unfolding running_sizes get_running_group_size
idle_sizes [] i e = refl
idle_sizes (w ∷ ws) zero e = omega arith
idle_sizes (w ∷ ws) (suc i) e = idle_sizes ws i (omega arith)

idle-retainable :
    (heap : Heap) (ws : List Worker) → running_sizes ws ≡ 0 → retainable heap ws ≡ true
unfolding running_sizes get_running_group_size
idle-retainable heap [] e = refl
idle-retainable heap (w ∷ ws) e =
    rw (empty_of w.running_groups (omega arith)) (idle-retainable heap ws (omega arith))

idle-released :
    (ws vs : List Worker) → running_sizes ws ≡ 0 → staff (map released ws ++ vs) ≡ staff vs
unfolding running_sizes get_running_group_size
idle-released [] vs e = refl
idle-released (w ∷ ws) vs e =
    rw (empty_of w.running_groups (omega arith)) (idle-released ws vs (omega arith))

-- Where there are `size_` workers and none of them runs a group, `Resize` to more workers returns,
-- for every store of runners, and then none of the `size` workers has a runner: all pending groups
-- are gone.
pub idle_resize_drops_all :
    (move_task : ℕ → ℕ → ℕ → Task) (debug : Bool) (group_id : ℕ) (m : Manager) (size : ℕ)
    → length m.workers ≡ m.size
    → m.size < size
    → running_sizes m.workers ≡ 0
    → (m' : Manager) × (resize move_task debug group_id m size ≡ ok m')
      × (length m'.workers ≡ size)
      × (staff m'.workers ≡ [])
unfolding create_workers balance_more
idle_resize_drops_all move_task debug group_id m size whole grows idle =
    let n = size - m.size in
    let made = replicate n (new_worker true group_id) in
    let ws = map released m.workers ++ made in
    let len : length ws ≡ size =
      length-append (map released m.workers) made
      ∙ omega (
        arith,
        whole,
        length-map m.workers released,
        length-replicate n (new_worker true group_id),
      ) in
    let sum : m.size + n ≡ size = omega arith in
    let fits : leb (m.size + n) (length (m.workers ++ made)) ≡ true =
      le→leb (m.size + n) (length (m.workers ++ made)) (
        omega (
          arith,
          whole,
          length-append m.workers made,
          length-replicate n (new_worker true group_id),
        )) in
    let none_left : staff ws ≡ [] = idle-released m.workers made idle ∙ staff-new n group_id in
    let (ws', done, same, len') =
      allot_nothing move_task m.heap (map get_running_group_size (map released m.workers))
        (count_up m.size n ++ count_up 0 m.size) (pending m.workers) ws
        (λ i. idle_sizes m.workers i idle) (count_up-Within (length ws) m.size n (omega arith)) in
    (
      record m { workers = ws'; index = m.size; size = m.size + n },
      resize_more move_task debug group_id m size grows
          ∙ rw
              (
                take-append m.size m.workers made whole,
                drop-append m.size m.workers made whole,
                fits,
                retain_all_lem m.heap m.workers (idle-retainable m.heap m.workers idle),
                idle,
                zero-div (m.size + n),
                done,
              )
              refl,
      len' ∙ len,
      same ∙ none_left,
    )
