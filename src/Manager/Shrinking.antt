-- ===== src/Manager/Shrinking.antt =====
-- `Resize` to fewer workers of worker_manager.cc: binding the groups again, and what is left.
use footstone.Base.{
  ℕ, zero, suc, ◌+◌, ◌-◌, ◌<◌, ◌≤◌, ◌≡◌, ◌≢◌, refl, ap, ◌∙◌, Bool, true, false, not, List, [], ◌∷◌,
  ◌++◌, map, Option, none, some, set, take, drop, length, length-set, length-append, length-map,
  length-take, length-drop, take-append-drop, leb, lt→ltb, le→ltb_false, arith, ne→==_false, ◌==◌,
  if◌then◌else◌, ok, fault, failed_check,
}
use footstone.Base.Count.{count, count-append}
use footstone.Base.Store.{write}
use footstone.Runner.{Task, default_group_id}
use footstone.Scheduler.{Heap, Group, Worker, bind}
use footstone.Scheduler.Binding.{members, runners, members-append}
use footstone.Manager.{Manager, take_specifics, give_specifics}
use footstone.Manager.Staff.{staff, staff-set, get_elem?-lt}
use footstone.Manager.Resizing.{pending, released, retain_all_lem, staff-append, staff-released}
use footstone.Manager.Balance.{
  un_bind_down, bind_again, carry_specifics, adopt_group, pop_workers, balance_less, resize,
  retain_all,
}
use footstone.Manager.Calm.{
  Everywhere, AllFilled, AllFilled-append, IsCalm, Everywhere-take, calm-retainable, calm-pending,
  un_bind_down_lem, terminations, terminations-set, terminations-released,
}

-- The same workers, those removed before, and the same places.
abbrev Keeps : Manager → Manager → Type 0
Keeps m' m =
    (m'.workers ≡ m.workers) × (m'.index ≡ m.index) × (m'.size ≡ m.size) × (m'.stopped ≡ m.stopped)

carry_specifics-Keeps :
    (id i : ℕ) (from : Option ℕ) (m : Manager) → Keeps (carry_specifics id i from m) m
unfolding carry_specifics take_specifics give_specifics
carry_specifics-Keeps id i none m = (refl, refl, refl, refl)
carry_specifics-Keeps id i (some from) m = (refl, refl, refl, refl)

adopt_group-Keeps : (i : ℕ) (group : Group) (m : Manager) → Keeps (adopt_group i group m) m
unfolding adopt_group
adopt_group-Keeps i [] m = (refl, refl, refl, refl)
adopt_group-Keeps i (r ∷ group) m =
    let m' = carry_specifics (m.heap r).id i (m.heap r).worker m in
    let (ws, index, size, stopped) = carry_specifics-Keeps (m.heap r).id i (m.heap r).worker m in
    let (ws', index', size', stopped') =
      adopt_group-Keeps i group
        (record m' { heap = write r (record (m.heap r) { worker = some i }) m'.heap }) in
    (ws' ∙ ws, index' ∙ index, size' ∙ size, stopped' ∙ stopped)

bind_lem :
    (heap : Heap) (w : Worker) (r : ℕ) (group : Group)
    → (w' : Worker) × (bind heap w (r ∷ group) ≡ ok w')
      × (w'.is_terminated ≡ w.is_terminated)
      × ((x : ℕ) → count x (runners w') ≡ count x (runners w) + count x (r ∷ group))
unfolding bind
bind_lem heap w r group = (
  record w {
    group_id =
        if not ((heap r).group_id == default_group_id) then (heap r).group_id else w.group_id;
    pending_groups = w.pending_groups ++ ((r ∷ group) ∷ []);
    need_balance = true;
    notified = w.notified + 1;
  },
  refl,
  refl,
  λ x. rw (members-append w.pending_groups ((r ∷ group) ∷ [])) (
      omega (
        arith,
        count-append x (members w.running_groups)
            (members w.pending_groups ++ members ((r ∷ group) ∷ [])),
        count-append x (members w.running_groups) (members w.pending_groups),
        count-append x (members w.pending_groups) (members ((r ∷ group) ∷ [])),
        count-append x (r ∷ group) [],
      )),
)

bind_again_lem :
    (size : ℕ) (groups : List Group) (m : Manager)
    → size ≢ 1
    → AllFilled groups
    → m.index < length m.workers
    → (m' : Manager) × (bind_again size groups m ≡ ok m')
      × (length m'.workers ≡ length m.workers)
      × (m'.stopped ≡ m.stopped)
      × (terminations m'.workers ≡ terminations m.workers)
      × ((x : ℕ)
          → count x (staff m'.workers) ≡ count x (staff m.workers) + count x (members groups))
unfolding bind_again
bind_again_lem size [] m many filled inside = (m, refl, refl, refl, refl, λ x. omega arith)
bind_again_lem size ([] ∷ groups) m many filled inside = absurd (filled.0 refl)
bind_again_lem size ((r ∷ group) ∷ groups) m many filled inside =
    let (w, at) = get_elem?-lt m.workers m.index inside in
    let (w', bound, flag, more) = bind_lem m.heap w r group in
    let ws = set m.workers m.index w' in
    let m1 = adopt_group m.index (r ∷ group) (record m { workers = ws }) in
    let (same_ws, _, _, stays) =
      adopt_group-Keeps m.index (r ∷ group) (record m { workers = ws }) in
    let len : length m1.workers ≡ length m.workers =
      ap length same_ws ∙ length-set m.workers m.index w' in
    let (m', done, len', stay, flags, same) =
      bind_again_lem size groups (record m1 { index = 0 }) many filled.1 (omega (arith, len)) in
    (
      m',
      rw (at, bound, ne→==_false size 1 many) done,
      len' ∙ len,
      stay ∙ stays,
      flags ∙ ap terminations same_ws ∙ terminations-set m.workers m.index w w' at flag,
      λ x. omega (
        arith,
        same x,
        ap (λ l. count x (staff l)) same_ws,
        staff-set x m.workers m.index w w' at,
        more x,
        count-append x (r ∷ group) (members groups),
      ),
    )

-- The first loop, for a manager whose workers may all stop: it takes the groups of all but the first.
un_bind_all_lem :
    (m : Manager) (reduce : ℕ)
    → length m.workers ≡ m.size
    → reduce < m.size
    → Everywhere (IsCalm m.heap) m.workers
    → (ws : List Worker) × (groups : List Group) × (un_bind_down m.heap reduce m.size 0 m.workers
        ≡ ok (ws, groups, m.size - 1))
      × (length ws ≡ m.size)
      × Everywhere (IsCalm m.heap) ws
      × AllFilled groups
      × (terminations ws ≡ terminations m.workers)
      × ((x : ℕ) → count x (staff ws) + count x (members groups) ≡ count x (staff m.workers))
un_bind_all_lem m reduce whole less calm =
    let (ws, groups, done, len, calm', filled, flags, same) =
      un_bind_down_lem m.heap reduce (m.size - 1) 0 m.workers (omega arith) (omega arith) calm in
    let here : m.size ≡ suc (m.size - 1) = omega arith in
    (
      ws,
      groups,
      ap (λ n. un_bind_down m.heap reduce n 0 m.workers) here
          ∙ done
          ∙ ap (λ n. ok (ws, groups, n)) (omega arith),
      len ∙ whole,
      calm',
      filled,
      flags,
      same,
    )

resize_less :
    (move_task : ℕ → ℕ → ℕ → Task) (debug : Bool) (group_id : ℕ) (m : Manager) (size : ℕ)
    → size < m.size
    → resize move_task debug group_id m size ≡ balance_less debug m (m.size - size)
unfolding resize
resize_less move_task debug group_id m size less =
    rw (ne→==_false size m.size (λ e. omega arith), le→ltb_false m.size size (omega arith)) refl

-- In a debug build, `Resize` of a manager of `size_` workers to fewer, but two or more, fails a
-- check, if no worker runs an unschedulable runner or has a group without runners, and
-- `RetainActiveAndUnschedulable` is defined for each.
resize_fails_debug :
    (move_task : ℕ → ℕ → ℕ → Task) (group_id : ℕ) (m : Manager) (size : ℕ)
    → length m.workers ≡ m.size
    → 2 ≤ size
    → size < m.size
    → Everywhere (IsCalm m.heap) m.workers
    → resize move_task true group_id m size ≡ fault failed_check
unfolding balance_less
resize_fails_debug move_task group_id m size whole two less calm =
    let (ws, groups, done, _, _, _, _, _) =
      un_bind_all_lem m (m.size - size) whole (omega arith) calm in
    resize_less move_task true group_id m size less
    ∙ rw
        (
          lt→ltb (m.size - size) m.size (omega arith),
          done,
          ne→==_false (m.size - 1) (m.size - size) (λ e. omega (arith, e)),
        )
        refl

pop_workers-none : (size : ℕ) (m : Manager) → pop_workers size size m ≡ ok m
unfolding pop_workers
pop_workers-none zero m = refl
pop_workers-none (suc size) m = rw (pop_workers, lt→ltb size (suc size) (omega arith)) refl

-- The stages of `Balance` in a release build. The loop that removes workers compares the new size with itself.
balance_less_stages :
    (m : Manager) (reduce reduced : ℕ) (ws kept : List Worker) (groups more : List Group)
    (m' : Manager)
    → reduce < m.size
    → un_bind_down m.heap reduce m.size 0 m.workers ≡ ok (ws, groups, reduced)
    → retain_all m.heap (take (m.size - reduce) ws) ≡ ok (kept, more)
    → bind_again (m.size - reduce) (groups ++ more) (record m {
      workers = kept ++ drop (m.size - reduce) ws;
      index = if leb (m.size - reduce) m.index then 0 else m.index;
    })
      ≡ ok m'
    → balance_less false m reduce ≡ ok (record m' { size = m.size - reduce })
unfolding balance_less
balance_less_stages m reduce reduced ws kept groups more m' less e1 e2 e3 =
    rw (lt→ltb reduce m.size less, e1, e2, e3)
      (pop_workers-none (m.size - reduce) (record m' { size = m.size - reduce }))

-- In a release build, `Resize` of a manager of `size_` workers to fewer, but two or more, returns,
-- if no worker runs an unschedulable runner or has a group without runners, and
-- `RetainActiveAndUnschedulable` is defined for each. It takes the new size, but removes
-- no worker and terminates none, and each runner is with them as often as before.
pub resize_keeps_workers :
    (move_task : ℕ → ℕ → ℕ → Task) (group_id : ℕ) (m : Manager) (size : ℕ)
    → length m.workers ≡ m.size
    → 2 ≤ size
    → size < m.size
    → Everywhere (IsCalm m.heap) m.workers
    → (m' : Manager) × (resize move_task false group_id m size ≡ ok m')
      × (m'.size ≡ size)
      × (length m'.workers ≡ m.size)
      × (m'.stopped ≡ m.stopped)
      × (terminations m'.workers ≡ terminations m.workers)
      × ((x : ℕ) → count x (staff m'.workers) ≡ count x (staff m.workers))
resize_keeps_workers move_task group_id m size whole two less calm =
    let (ws, groups, done, len, calm', filled, flags, same) =
      un_bind_all_lem m (m.size - size) whole (omega arith) calm in
    let n = m.size - (m.size - size) in
    let kept = take n ws in
    let retained = map released kept ++ drop n ws in
    let index = if leb n m.index then 0 else m.index in
    let m1 : Manager = record m { workers = retained; index = index } in
    let len1 : length retained ≡ m.size =
      length-append (map released kept) (drop n ws)
      ∙ omega (arith, length-map kept released, length-take n ws, length-drop n ws, len) in
    let (m2, bound, len2, stay, flags2, same2) =
      bind_again_lem n (groups ++ pending kept) m1 (λ e. omega (arith, e))
        (AllFilled-append groups (pending kept) filled
          (calm-pending kept (Everywhere-take n ws calm')))
        (let low = inside n m.index (omega arith) in omega (arith, low, len1)) in
    (
      record m2 { size = n },
      resize_less move_task false group_id m size less
          ∙ balance_less_stages m (m.size - size) (m.size - 1) ws (map released kept) groups
              (pending kept) m2 (omega arith) done
              (retain_all_lem m.heap kept (calm-retainable kept (Everywhere-take n ws calm')))
              bound,
      omega arith,
      len2 ∙ len1,
      stay,
      flags2 ∙ terminations-released n ws ∙ flags,
      λ x. omega (
        arith,
        same2 x,
        ap (count x) (members-append groups (pending kept)),
        count-append x (members groups) (members (pending kept)),
        staff-append x (map released kept) (drop n ws),
        staff-append x kept (drop n ws),
        ap (λ l. count x (staff l)) (take-append-drop n ws),
        staff-released x kept,
        same x,
      ),
    )
  where
    inside : (n k : ℕ) → 0 < n → (if leb n k then 0 else k) < n
    inside n k pos = ground arith
