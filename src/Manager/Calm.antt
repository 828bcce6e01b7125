-- ===== src/Manager/Calm.antt =====
-- Workers that `Resize` may stop, and the loop of `Balance` that takes their groups.
use mathlib.Core.Path.{subst}
use footstone.Base.{
  ℕ, zero, suc, ◌+◌, ◌<◌, ◌≤◌, ◌≡◌, ◌≢◌, refl, ap, ◌∙◌, Bool, true, false, List, [], ◌∷◌, ◌++◌, map,
  some, get_elem?, set, take, drop, length, length-set, le→ltb_false, arith, ne→==_false, ok, ◌>>=◌,
}
use footstone.Base.Count.{count, count-append}
use footstone.Scheduler.{Heap, Group, Worker, un_bind_all, has_unschedulable_runner, in_groups}
use footstone.Scheduler.Binding.{members, runners, members-append, all_schedulable}
use footstone.Manager.Staff.{staff, staff-set, get_elem?-lt}
use footstone.Manager.Resizing.{retainable, pending, released}
use footstone.Manager.Balance.{un_bind_down}

-- A property of every worker.
abbrev pub Everywhere : (Worker → Type 0) → List Worker → Type 0
Everywhere P ws = (i : ℕ) (w : Worker) → get_elem? ws i ≡ some w → P w

-- No group of a list is empty.
abbrev pub AllFilled : List Group → Type 0
AllFilled [] = Unit
AllFilled (g ∷ groups) = (g ≢ []) × AllFilled groups

pub AllFilled-append : (gs hs : List Group) → AllFilled gs → AllFilled hs → AllFilled (gs ++ hs)
AllFilled-append [] hs a b = b
AllFilled-append (g ∷ gs) hs (here, a) b = (here, AllFilled-append gs hs a b)

-- The worker runs no unschedulable runner, and has no group without runners.
pub record IsCalm (heap : Heap) (w : Worker) : Type 0 where
  pub may_stop : has_unschedulable_runner heap w ≡ false
  pub defined : all_schedulable heap (drop 1 w.running_groups) ≡ true
  pub running_filled : AllFilled w.running_groups
  pub pending_filled : AllFilled w.pending_groups

-- Which of the workers have been terminated.
abbrev pub terminations : List Worker → List Bool
terminations [] = []
terminations (w ∷ ws) = w.is_terminated ∷ terminations ws

pub terminations-set :
    (ws : List Worker) (i : ℕ) (w w' : Worker)
    → get_elem? ws i ≡ some w
    → w'.is_terminated ≡ w.is_terminated
    → terminations (set ws i w') ≡ terminations ws
terminations-set [] i w w' e same = refl
terminations-set (v ∷ ws) zero w w' e same = let here : v ≡ w = cc in rw (same, here) refl
terminations-set (v ∷ ws) (suc i) w w' e same =
    ap (λ l. v.is_terminated ∷ l) (terminations-set ws i w w' e same)

-- `RetainActiveAndUnschedulable` of the first workers stops none.
pub terminations-released :
    (n : ℕ) (ws : List Worker)
    → terminations (map released (take n ws) ++ drop n ws) ≡ terminations ws
terminations-released zero ws = refl
terminations-released (suc n) [] = refl
terminations-released (suc n) (w ∷ ws) = ap (λ l. w.is_terminated ∷ l) (terminations-released n ws)

module _ {P : Worker → Type 0} where
  Everywhere-set :
      (ws : List Worker) (i : ℕ) (w' : Worker) → Everywhere P ws → P w' → Everywhere P (set ws i w')
  Everywhere-set [] i w' all new j w e = cc
  Everywhere-set (v ∷ ws) zero w' all new zero w e = let same : w' ≡ w = cc in subst P same new
  Everywhere-set (v ∷ ws) zero w' all new (suc j) w e = all (suc j) w e
  Everywhere-set (v ∷ ws) (suc i) w' all new zero w e = all 0 w e
  Everywhere-set (v ∷ ws) (suc i) w' all new (suc j) w e =
      Everywhere-set ws i w' (λ k u f. all (suc k) u f) new j w e

  pub Everywhere-take : (n : ℕ) (ws : List Worker) → Everywhere P ws → Everywhere P (take n ws)
  Everywhere-take zero ws all i w e = cc
  Everywhere-take (suc n) [] all i w e = cc
  Everywhere-take (suc n) (v ∷ ws) all zero w e = all 0 w e
  Everywhere-take (suc n) (v ∷ ws) all (suc i) w e =
      Everywhere-take n ws (λ k u f. all (suc k) u f) i w e

module _ {heap : Heap} where
  pub calm-retainable : (ws : List Worker) → Everywhere (IsCalm heap) ws → retainable heap ws ≡ true
  calm-retainable [] all = refl
  calm-retainable (w ∷ ws) all =
      rw ((all 0 w refl).defined) (calm-retainable ws (λ i v e. all (suc i) v e))

  pub calm-pending : (ws : List Worker) → Everywhere (IsCalm heap) ws → AllFilled (pending ws)
  calm-pending [] all = tt
  calm-pending (w ∷ ws) all =
      AllFilled-append w.pending_groups (pending ws) (all 0 w refl).pending_filled
        (calm-pending ws (λ i v e. all (suc i) v e))

  -- The worker that `UnBind` leaves.
  un_bind_all-IsCalm : (w : Worker) → IsCalm heap (un_bind_all w).0
  unfolding un_bind_all has_unschedulable_runner in_groups
  un_bind_all-IsCalm w = record {
    may_stop = refl;
    defined = refl;
    running_filled = tt;
    pending_filled = tt;
  }

un_bind_end :
    (heap : Heap) (reduce reduced : ℕ) (ws : List Worker)
    → reduce ≤ reduced
    → un_bind_down heap reduce 1 reduced ws ≡ ok (ws, [], reduced)
unfolding un_bind_down
un_bind_end heap reduce reduced ws enough =
    rw (un_bind_down, le→ltb_false reduced reduce enough) refl

un_bind_step :
    (heap : Heap) (reduce i reduced : ℕ) (ws : List Worker) (w : Worker)
    → get_elem? ws (suc i) ≡ some w
    → has_unschedulable_runner heap w ≡ false
    → un_bind_down heap reduce (suc (suc i)) reduced ws ≡ (
        un_bind_down heap reduce (suc i) (reduced + 1) (set ws (suc i) (un_bind_all w).0) >>= λ p.
        ok (p.0, (un_bind_all w).1 ++ p.1, p.2))
unfolding un_bind_down
un_bind_step heap reduce i reduced ws w at may =
    rw (un_bind_down, ne→==_false (suc i) 0 (λ e. omega (arith, e)), at, ◌>>=◌, may) refl

-- From the worker behind the first `i` down, each of them is emptied.
pub un_bind_down_lem :
    (heap : Heap) (reduce i reduced : ℕ) (ws : List Worker)
    → i < length ws
    → reduce ≤ reduced + i
    → Everywhere (IsCalm heap) ws
    → (ws' : List Worker) × (groups : List Group) × (un_bind_down heap reduce (suc i) reduced ws
        ≡ ok (ws', groups, reduced + i))
      × (length ws' ≡ length ws)
      × Everywhere (IsCalm heap) ws'
      × AllFilled groups
      × (terminations ws' ≡ terminations ws)
      × ((x : ℕ) → count x (staff ws') + count x (members groups) ≡ count x (staff ws))
unfolding un_bind_all
un_bind_down_lem heap reduce zero reduced ws fits enough calm = (
  ws,
  [],
  un_bind_end heap reduce reduced ws (omega arith) ∙ ap (λ n. ok (ws, [], n)) (omega arith),
  refl,
  calm,
  tt,
  refl,
  λ x. omega arith,
)
un_bind_down_lem heap reduce (suc i) reduced ws fits enough calm =
    let (w, at) = get_elem?-lt ws (suc i) fits in
    let w' = (un_bind_all w).0 in
    let c = calm (suc i) w at in
    let len = length-set ws (suc i) w' in
    let (ws', groups, done, len', calm', filled, flags, same) =
      un_bind_down_lem heap reduce i (reduced + 1) (set ws (suc i) w') (omega (arith, len))
        (omega arith) (Everywhere-set ws (suc i) w' calm (un_bind_all-IsCalm w)) in
    (
      ws',
      (w.running_groups ++ w.pending_groups) ++ groups,
      un_bind_step heap reduce i reduced ws w at c.may_stop
          ∙ rw done (
              ap (λ n. ok (ws', (w.running_groups ++ w.pending_groups) ++ groups, n))
                (omega arith)),
      len' ∙ len,
      calm',
      AllFilled-append (w.running_groups ++ w.pending_groups) groups
          (AllFilled-append w.running_groups w.pending_groups c.running_filled c.pending_filled)
          filled,
      flags ∙ terminations-set ws (suc i) w w' at refl,
      λ x.
          rw
            (
              members-append (w.running_groups ++ w.pending_groups) groups,
              members-append w.running_groups w.pending_groups,
            )
            (omega (
              arith,
              same x,
              staff-set x ws (suc i) w w' at,
              count-append x (runners w) (members groups),
            )),
    )
