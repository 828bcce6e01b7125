-- ===== src/Manager/Staff.antt =====
-- The runners that the workers of worker_manager.cc have, and those that `Balance` hands to them.
use footstone.Base.{
  ℕ, zero, suc, ◌+◌, ◌-◌, ◌<◌, ◌≡◌, refl, sym, ap, ◌∙◌, false, ltb, Bool-cases, inl, inr,
  if◌then◌else◌, List, [], ◌∷◌, ◌++◌, some, get_elem?, get_or, set, take, drop, length, length-set,
  arith, eq→==, ok,
}
use footstone.Base.Count.{count, count-append}
use footstone.Runner.{Task}
use footstone.Scheduler.{Heap, Group, Worker, add_immediate_task, bind_list}
use footstone.Scheduler.Binding.{members, runners, members-append}
use footstone.Manager.Balance.{share, announce_group, announce_groups, allot}

-- The runners of all workers.
abbrev pub staff : List Worker → List ℕ
staff [] = []
staff (w ∷ ws) = runners w ++ staff ws

-- Every runner of a list has a worker among the first `n`.
abbrev pub Placed : Heap → ℕ → List ℕ → Type 0
Placed heap n l = (r : ℕ) → 0 < count r l → (from : ℕ) × ((heap r).worker ≡ some from) × (from < n)

-- The same runners, each as often.
abbrev pub SameStaff : List Worker → List Worker → Type 0
SameStaff ws' ws = (length ws' ≡ length ws) × ((x : ℕ) → count x (staff ws') ≡ count x (staff ws))

pub get_elem?-lt :
    (ws : List Worker) (i : ℕ) → i < length ws → (w : Worker) × (get_elem? ws i ≡ some w)
get_elem?-lt [] i h = elim h [ ]
get_elem?-lt (w ∷ ws) zero h = (w, refl)
get_elem?-lt (w ∷ ws) (suc i) h = get_elem?-lt ws i (omega arith)

pub staff-set :
    (x : ℕ) (ws : List Worker) (i : ℕ) (w w' : Worker)
    → get_elem? ws i ≡ some w
    → count x (staff (set ws i w')) + count x (runners w)
      ≡ count x (staff ws) + count x (runners w')
staff-set x [] i w w' e = cc
staff-set x (v ∷ ws) zero w w' e =
    let same : v ≡ w = cc in
    rw (same, count-append x (runners w') (staff ws), count-append x (runners w) (staff ws))
      (omega arith)
staff-set x (v ∷ ws) (suc i) w w' e = omega (
  arith,
  count-append x (runners v) (staff ws),
  count-append x (runners v) (staff (set ws i w')),
  staff-set x ws i w w' e,
)

-- All places are below a number.
abbrev pub Within : ℕ → List ℕ → Type 0
Within n places = (i : ℕ) → 0 < count i places → i < n

-- What is left of a list of groups, when the workers at these places take groups in turn up to the quota, and
-- one with more groups than that takes all.
abbrev pub unplaced : ℕ → List ℕ → List ℕ → List Group → List Group
unplaced quota curs [] groups = groups
unplaced quota curs (i ∷ places) groups =
    unplaced quota curs places
      (if ltb quota (get_or curs i 0) then [] else drop (quota - get_or curs i 0) groups)

drop-all : (n : ℕ) (groups : List Group) → ltb n (length groups) ≡ false → drop n groups ≡ []
drop-all zero [] h = refl
drop-all zero (g ∷ groups) h = ground arith
drop-all (suc n) [] h = refl
drop-all (suc n) (g ∷ groups) h = drop-all n groups (ground arith)

share-rest :
    (n cur : ℕ) (groups : List Group)
    → (share n cur groups).1 ≡ (if ltb n cur then [] else drop (n - cur) groups)
unfolding share
share-rest n cur groups = elim (Bool-cases (ltb n cur)) [
  | inl e ↦ rw e refl
  | inr e ↦ elim (Bool-cases (ltb (n - cur) (length groups))) [
    | inl f ↦ rw (e, f) refl
    | inr f ↦ rw (e, f) (sym (drop-all (n - cur) groups f))
  ]
]

module _ (move_task : ℕ → ℕ → ℕ → Task) (heap : Heap) where
  announce_group_lem :
      (to : ℕ) (group : Group) (ws : List Worker)
      → Placed heap (length ws) group
      → (ws' : List Worker) × (announce_group move_task heap to group ws ≡ ok ws')
        × SameStaff ws' ws
  unfolding announce_group add_immediate_task
  announce_group_lem to [] ws placed = (ws, refl, (refl, λ x. refl))
  announce_group_lem to (r ∷ group) ws placed =
      let here : 0 < count r (r ∷ group) = rw (eq→== r r refl) (omega arith) in
      let (from, e, lt) = placed r here in
      let (w, at) = get_elem?-lt ws from lt in
      let w' = add_immediate_task w (some (move_task (heap r).id from to)) in
      let (ws', done, (len, same)) =
        announce_group_lem to group (set ws from w') (λ s pos.
          let (k, f, l) = placed s (omega arith) in (k, f, rw (length-set ws from w') l)) in
      (
        ws',
        rw (e, at) done,
        (len ∙ length-set ws from w', λ x. omega (arith, same x, staff-set x ws from w w' at)),
      )

  announce_groups_lem :
      (to : ℕ) (groups : List Group) (ws : List Worker)
      → Placed heap (length ws) (members groups)
      → (ws' : List Worker) × (announce_groups move_task heap to groups ws ≡ ok ws')
        × SameStaff ws' ws
  unfolding announce_groups
  announce_groups_lem to [] ws placed = (ws, refl, (refl, λ x. refl))
  announce_groups_lem to (g ∷ groups) ws placed =
      let (ws1, done1, (len1, same1)) =
        announce_group_lem to g ws
          (λ s pos. placed s (omega (arith, count-append s g (members groups)))) in
      let (ws2, done2, (len2, same2)) = announce_groups_lem to groups ws1 (λ s pos.
        let (k, f, l) = placed s (omega (arith, count-append s g (members groups))) in
        (k, f, rw len1 l)) in
      (ws2, rw done1 done2, (len2 ∙ len1, λ x. same2 x ∙ same1 x))

  members-split :
      (x n : ℕ) (groups : List Group)
      → count x (members (take n groups)) + count x (members (drop n groups))
        ≡ count x (members groups)
  members-split x zero groups = omega arith
  members-split x (suc n) [] = omega arith
  members-split x (suc n) (g ∷ groups) = omega (
    arith,
    members-split x n groups,
    count-append x g (members (take n groups)),
    count-append x g (members groups),
  )

  share_lem :
      (x n cur : ℕ) (groups : List Group)
      → let (list, rest) = share n cur groups in
        count x (members list) + count x (members rest) ≡ count x (members groups)
  unfolding share
  share_lem x n cur groups = ground (arith, members-split x (n - cur) groups)

  -- The loop loses no runner: they are with the workers or in the groups that are left.
  pub allot_lem :
      (n : ℕ) (curs places : List ℕ) (groups : List Group) (ws : List Worker)
      → Within (length ws) places
      → Placed heap (length ws) (members groups)
      → let rest = unplaced n curs places groups in
        (ws' : List Worker) × (allot move_task heap n curs places groups ws ≡ ok (ws', rest))
        × (length ws' ≡ length ws)
        × ((x : ℕ)
            → count x (staff ws') + count x (members rest)
              ≡ count x (staff ws) + count x (members groups))
  unfolding allot bind_list
  allot_lem n curs [] groups ws within placed = (ws, refl, refl, λ x. refl)
  allot_lem n curs (i ∷ places) groups ws within placed =
      let here : i < length ws = within i (rw (eq→== i i refl) (omega arith)) in
      let p = share n (get_or curs i 0) groups in
      let split = λ (x : ℕ). share_lem x n (get_or curs i 0) groups in
      let (ws1, done1, (len1, same1)) =
        announce_groups_lem i p.0 ws (λ s pos. placed s (omega (arith, split s))) in
      let (w, at) = get_elem?-lt ws1 i (rw len1 here) in
      let len2 = length-set ws1 i (bind_list w p.0) ∙ len1 in
      let (ws', done, len, same) =
        allot_lem n curs places p.1 (set ws1 i (bind_list w p.0))
          (λ j pos. rw len2 (within j (omega arith)))
          (λ s pos. let (k, f, l) = placed s (omega (arith, split s)) in (k, f, rw len2 l)) in
      let left = share-rest n (get_or curs i 0) groups in
      (
        ws',
        rw (done1, at) (done ∙ ap (λ l. ok (ws', unplaced n curs places l)) left),
        len ∙ len2,
        λ x. omega (
          arith,
          same x,
          ap (λ l. count x (members (unplaced n curs places l))) left,
          same1 x,
          split x,
          staff-set x ws1 i w (bind_list w p.0) at,
          bound x w p.0,
        ),
      )
    where
      bound :
          (x : ℕ) (w : Worker) (list : List Group)
          → count x (runners (bind_list w list)) ≡ count x (runners w) + count x (members list)
      bound x w list = rw (members-append w.pending_groups list) (
          omega (
            arith,
            count-append x (members w.running_groups) (members w.pending_groups ++ members list),
            count-append x (members w.running_groups) (members w.pending_groups),
            count-append x (members w.pending_groups) (members list),
          ))
