-- ===== src/Manager/Resizing.antt =====
-- What `Resize` to more workers does with the runners.
use footstone.Base.{
  ℕ, zero, suc, ◌+◌, ◌-◌, ◌/◌, ◌<◌, ◌≤◌, ◌≡◌, refl, sym, ap, ◌∙◌, Bool, true, ◌&&◌, Bool-cases,
  List, [], ◌∷◌, ◌++◌, map, take, drop, length, take-append-drop, length-append, length-map,
  length-take, length-drop, length-replicate, le→leb, ne→==_false, replicate, ltb, ltb→lt, lt→ltb,
  inl, inr, ◌==◌, arith, ok,
}
use footstone.Base.Count.{count, count-append}
use footstone.Runner.{Task}
use footstone.Scheduler.{
  Heap, Group, Worker, get_running_group_size, new_worker, retain_active_and_unschedulable,
}
use footstone.Scheduler.Binding.{
  members, runners, members-append, all_schedulable, retain_active_outcomes,
}
use footstone.Manager.Staff.{staff, Placed, Within, unplaced, allot_lem}
use footstone.Manager.{Manager, create_workers}
use footstone.Manager.Balance.{retain_all, running_sizes, count_up, balance_more, resize}

-- `RetainActiveAndUnschedulable` is defined for every worker.
abbrev pub retainable : Heap → List Worker → Bool
retainable heap [] = true
retainable heap (w ∷ ws) = all_schedulable heap (drop 1 w.running_groups) && retainable heap ws

-- The pending groups of all workers.
abbrev pub pending : List Worker → List Group
pending [] = []
pending (w ∷ ws) = w.pending_groups ++ pending ws

abbrev pub released : Worker → Worker
released w = record w { pending_groups = [] }

retain-released :
    (heap : Heap) (w : Worker)
    → all_schedulable heap (drop 1 w.running_groups) ≡ true
    → retain_active_and_unschedulable heap w ≡ ok (released w, w.pending_groups)
unfolding retain_active_and_unschedulable
retain-released heap w h = by_groups w.running_groups refl
  where
    by_groups :
        (groups : List Group)
        → w.running_groups ≡ groups
        → retain_active_and_unschedulable heap w ≡ ok (released w, w.pending_groups)
    by_groups [] e = rw e refl
    by_groups (g ∷ groups) e =
        (retain_active_outcomes heap w g groups e).0
          (ap (λ l. all_schedulable heap (drop 1 l)) (sym e) ∙ h)

pub retain_all_lem :
    (heap : Heap) (ws : List Worker)
    → retainable heap ws ≡ true
    → retain_all heap ws ≡ ok (map released ws, pending ws)
unfolding retain_all
retain_all_lem heap [] h = refl
retain_all_lem heap (w ∷ ws) h =
    let (here, later) = and_split (all_schedulable heap (drop 1 w.running_groups)) h in
    rw (retain-released heap w here, retain_all_lem heap ws later) refl
  where
    and_split : (a : Bool) {b : Bool} → (a && b) ≡ true → (a ≡ true) × (b ≡ true)
    and_split a h = ground arith

pub staff-released :
    (x : ℕ) (ws : List Worker)
    → count x (staff (map released ws)) + count x (members (pending ws)) ≡ count x (staff ws)
staff-released x [] = refl
staff-released x (w ∷ ws) = rw (members-append w.pending_groups (pending ws)) (
    omega (
      arith,
      staff-released x ws,
      count-append x (runners (released w)) (staff (map released ws)),
      count-append x (runners w) (staff ws),
      count-append x (members w.running_groups) [],
      count-append x (members w.running_groups) (members w.pending_groups),
      count-append x (members w.pending_groups) (members (pending ws)),
    ))

pub staff-append :
    (x : ℕ) (ws vs : List Worker)
    → count x (staff (ws ++ vs)) ≡ count x (staff ws) + count x (staff vs)
staff-append x [] vs = omega arith
staff-append x (w ∷ ws) vs = omega (
  arith,
  staff-append x ws vs,
  count-append x (runners w) (staff (ws ++ vs)),
  count-append x (runners w) (staff ws),
)

count-count_up : (x from n : ℕ) → 0 < count x (count_up from n) → (from ≤ x) × (x < from + n)
count-count_up x from zero pos = elim pos [ ]
count-count_up x from (suc n) pos = elim (Bool-cases (from == x)) [
  | inl e ↦ let same : from ≡ x = ground arith in (omega arith, omega arith)
  | inr e ↦
      let later : 0 < 0 + count x (count_up (suc from) n) = rw e at pos in
      let (low, high) = count-count_up x (suc from) n (omega arith) in (omega arith, omega arith)
]

-- The places of `Balance` by `increase`, of a manager with `size` workers.
pub count_up-Within :
    (n size increase : ℕ)
    → size + increase ≤ n
    → Within n (count_up size increase ++ count_up 0 size)
count_up-Within n size increase fits i pos =
    elim (Bool-cases (ltb 0 (count i (count_up size increase)))) [
      | inl e ↦
          let h = count-count_up i size increase (ltb→lt 0 (count i (count_up size increase)) e) in
          omega (arith, h.1)
      | inr e ↦
          let none_there : ¬ (0 < count i (count_up size increase)) =
            λ lt. cc (lt→ltb 0 (count i (count_up size increase)) lt) in
          let h = count-count_up i 0 size (
            omega (arith, none_there, count-append i (count_up size increase) (count_up 0 size))) in
          omega (arith, h.1)
    ]

count-pending : (x : ℕ) (ws : List Worker) → count x (members (pending ws)) ≤ count x (staff ws)
count-pending x ws = omega (arith, staff-released x ws)

-- The groups that no worker gets when the pending groups of `old` workers are handed out to `increase` new
-- ones and to these.
abbrev pub left_over : List Worker → ℕ → ℕ → List Group
left_over old size increase =
    unplaced (running_sizes old / (size + increase)) (map get_running_group_size old)
      (count_up size increase ++ count_up 0 size) (pending old)

sizes-released :
    (ws : List Worker)
    → map get_running_group_size (map released ws) ≡ map get_running_group_size ws
unfolding get_running_group_size
sizes-released [] = refl
sizes-released (w ∷ ws) = ap (λ l. length w.running_groups ∷ l) (sizes-released ws)

-- `Balance` by a positive number returns where `RetainActiveAndUnschedulable` is defined and every pending
-- runner has a worker. It loses no runner that is not in one of the groups that are left over.
balance_more_lem :
    (move_task : ℕ → ℕ → ℕ → Task) (m : Manager) (increase : ℕ)
    → m.size + increase ≤ length m.workers
    → retainable m.heap (take m.size m.workers) ≡ true
    → Placed m.heap (length m.workers) (members (pending (take m.size m.workers)))
    → (m' : Manager) × (balance_more move_task m increase ≡ ok m')
      × (m'.size ≡ m.size + increase)
      × (length m'.workers ≡ length m.workers)
      × ((x : ℕ)
          → count x (staff m'.workers)
              + count x (members (left_over (take m.size m.workers) m.size increase))
            ≡ count x (staff m.workers))
unfolding balance_more
balance_more_lem move_task m increase fits defined placed =
    let old = take m.size m.workers in
    let n = m.size + increase in
    let ws = map released old ++ drop m.size m.workers in
    let len : length ws ≡ length m.workers =
      length-append (map released old) (drop m.size m.workers)
      ∙ ap (λ k. k + length (drop m.size m.workers)) (length-map old released)
      ∙ omega (arith, length-take m.size m.workers, length-drop m.size m.workers) in
    let places = count_up m.size increase ++ count_up 0 m.size in
    let (ws', done, same_len, same) =
      allot_lem move_task m.heap (running_sizes old / n)
        (map get_running_group_size (map released old))
        (count_up m.size increase ++ count_up 0 m.size) (pending old) ws
        (rw len (count_up-Within (length m.workers) m.size increase fits))
        (λ r pos. let (k, f, l) = placed r pos in (k, f, rw len l)) in
    (
      record m { workers = ws'; index = m.size; size = n },
      rw (le→leb n (length m.workers) fits, retain_all_lem m.heap old defined, done) refl,
      refl,
      same_len ∙ len,
      λ x. omega (
        arith,
        same x,
        ap (λ l. count x (members (unplaced (running_sizes old / n) l places (pending old))))
            (sizes-released old),
        staff-released x old,
        staff-append x (map released old) (drop m.size m.workers),
        staff-append x old (drop m.size m.workers),
        ap (λ l. count x (staff l)) (take-append-drop m.size m.workers),
      ),
    )

pub staff-new : (n group_id : ℕ) → staff (replicate n (new_worker true group_id)) ≡ []
unfolding new_worker
staff-new zero group_id = refl
staff-new (suc n) group_id = staff-new n group_id

pub take-append : (n : ℕ) (ws vs : List Worker) → length ws ≡ n → take n (ws ++ vs) ≡ ws
take-append n ws vs e = rw (← e) (by_clauses ws)
  where
    by_clauses : (l : List Worker) → take (length l) (l ++ vs) ≡ l
    by_clauses [] = refl
    by_clauses (w ∷ l) = ap (λ k. w ∷ k) (by_clauses l)

pub resize_more :
    (move_task : ℕ → ℕ → ℕ → Task) (debug : Bool) (group_id : ℕ) (m : Manager) (size : ℕ)
    → m.size < size
    → resize move_task debug group_id m size
      ≡ balance_more move_task (create_workers group_id m (size - m.size)) (size - m.size)
unfolding resize
resize_more move_task debug group_id m size grows =
    rw (ne→==_false size m.size (λ e. omega arith), lt→ltb m.size size grows) refl

pub drop-append : (n : ℕ) (ws vs : List Worker) → length ws ≡ n → drop n (ws ++ vs) ≡ vs
drop-append n ws vs e = rw (← e) (by_clauses ws)
  where
    by_clauses : (l : List Worker) → drop (length l) (l ++ vs) ≡ vs
    by_clauses [] = refl
    by_clauses (w ∷ l) = by_clauses l

-- The groups that `Resize` to more workers hands to none.
abbrev pub left_out : Manager → ℕ → List Group
left_out m size = left_over m.workers m.size (size - m.size)

-- `Resize` of a manager of `size_` workers to more returns where `RetainActiveAndUnschedulable` is
-- defined for every worker and every pending runner has a worker. Then there are `size` workers, and
-- each runner is with them as often as before, but for those in the pending groups that are left when
-- the new workers and then the old ones have each taken groups up to the quota, the number of running
-- groups divided by `size`; a worker that runs more groups than that takes all that are left.
pub resize_keeps_staff :
    (move_task : ℕ → ℕ → ℕ → Task) (debug : Bool) (group_id : ℕ) (m : Manager) (size : ℕ)
    → length m.workers ≡ m.size
    → m.size < size
    → retainable m.heap m.workers ≡ true
    → Placed m.heap m.size (members (pending m.workers))
    → (m' : Manager) × (resize move_task debug group_id m size ≡ ok m')
      × (m'.size ≡ size)
      × (length m'.workers ≡ size)
      × ((x : ℕ)
          → count x (staff m'.workers) + count x (members (left_out m size))
            ≡ count x (staff m.workers))
unfolding create_workers
resize_keeps_staff move_task debug group_id m size whole grows defined placed =
    let n = size - m.size in
    let made = replicate n (new_worker true group_id) in
    let m1 = create_workers group_id m n in
    let len : length m1.workers ≡ size =
      length-append m.workers made
      ∙ omega (arith, whole, length-replicate n (new_worker true group_id)) in
    let sum : m.size + n ≡ size = omega arith in
    let old : take m.size m1.workers ≡ m.workers = take-append m.size m.workers made whole in
    let (m', done, size', len', same) =
      balance_more_lem move_task m1 n (omega (arith, len)) (rw old defined)
        (rw old λ r pos. let (k, f, l) = placed r pos in (k, f, omega (arith, len))) in
    (
      m',
      resize_more move_task debug group_id m size grows ∙ done,
      size' ∙ sum,
      len' ∙ len,
      λ x.
          ap (λ ws. count x (staff m'.workers) + count x (members (left_over ws m.size n)))
            (sym old)
          ∙ same x
          ∙ staff-append x m.workers made
          ∙ rw (staff-new n group_id) (omega arith),
    )
