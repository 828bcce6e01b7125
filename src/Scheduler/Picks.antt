-- ===== src/Scheduler/Picks.antt =====
-- What `GetNextTask` picks, and what becomes of idle tasks.
use footstone.Base.{
  ◌≡◌, refl, sym, Bool, true, false, Option, none, some, List, [], ◌∷◌, ◌++◌, Outcome, ok, fault,
  if◌then◌else◌, ltb, length, arith, ◌>>=◌,
}
use footstone.Time.{Delta, Point, time_lt, point_plus_delta}
use footstone.Runner.{Task, IdleTask, get_next, get_next_time_delta}
use footstone.Scheduler.{Heap, Group, Worker}
use footstone.Scheduler.Next.{
  Scan, Next, run, run_idle, nothing, wait, task_of, sort_no_lock, balance_if_needed,
  balance_no_lock, scan_groups, after_scan, get_next_task, with_keys, front_time, set_group_times,
  back, front, note_wait,
}

-- A task or null at once: no idle task and no wait.
abbrev pub is_eager : Next → Bool
is_eager (run t) = true
is_eager nothing = true
is_eager (run_idle i p) = false
is_eager (wait d) = false

-- Whatever the code returns, if it returns, is so.
abbrev pub Always {ℓ} : {A : Type ℓ} → (A → Type 0) → Outcome A → Type 0
Always P (ok a) = P a
Always P (fault e) = Unit {0}

same_value {ℓ} : {A : Type ℓ} {x y : A} → ok x ≡ ok y → x ≡ y
same_value e = cc

pub Always-ok {ℓ} :
    {A : Type ℓ} (P : A → Type 0) (m : Outcome A) (a : A) → Always P m → m ≡ ok a → P a
Always-ok P (ok b) a p e = rw (sym (same_value e)) p
Always-ok P (fault f) a p e = cc

bind-Always {ℓ κ} :
    {A : Type ℓ} {B : Type κ} (Q : A → Type 0) (P : B → Type 0) (m : Outcome A) (f : A → Outcome B)
    → Always Q m
    → ((a : A) → Q a → Always P (f a))
    → Always P (m >>= f)
bind-Always Q P (ok a) f q h = h a q
bind-Always Q P (fault e) f q h = tt

module _ {ℓ} {B : Type ℓ} (P : B → Type 0) where
  pub any-Always {κ} :
      {A : Type κ} (m : Outcome A) (f : A → Outcome B)
      → ((a : A) → Always P (f a))
      → Always P (m >>= f)
  any-Always (ok a) f h = h a
  any-Always (fault e) f h = tt

  elim-Always {κ} :
      {A : Type κ} (o : Option A) (n : Outcome B) (f : A → Outcome B)
      → Always P n
      → ((a : A) → Always P (f a))
      → Always P (elim o [ none ↦ n | some a ↦ f a ])
  elim-Always none n f p q = p
  elim-Always (some a) n f p q = q a

  if-Always : (b : Bool) (m n : Outcome B) → Always P m → Always P n → Always P (if b then m else n)
  if-Always true m n p q = p
  if-Always false m n p q = q

-- The worker has not been terminated.
abbrev Alive : Worker → Type 0
Alive w = w.is_terminated ≡ false

note_wait-Alive :
    (w : Worker) (now : Point) (d : Delta) → Alive w → Always Alive (note_wait w now d)
unfolding note_wait
note_wait-Alive w now d alive =
    if-Always Alive (time_lt d w.min_wait_time) _ _
      (any-Always Alive (point_plus_delta now d) _ (λ next. alive)) alive

scan-Alive :
    (groups : List Group) (now : Point) (heap : Heap) (w : Worker) (idle : Option IdleTask)
    → Alive w
    → Always (λ s. Alive s.worker) (scan_groups groups now heap w idle)
unfolding scan_groups
scan-Alive [] now heap w idle alive = alive
scan-Alive (g ∷ groups) now heap w idle alive = any-Always _ (back g) _ (λ last.
    any-Always _ (front g) _ (λ first.
      elim-Always _ (get_next (heap last) now).0 _ _
        (any-Always _ (get_next_time_delta _ now) _ (λ d.
          bind-Always Alive _ (note_wait w now d) _ (note_wait-Alive w now d alive)
            (λ w' alive'. scan-Alive groups now _ w' _ alive')))
        (λ t. alive)))

after_scan-eager : (s : Scan) → Alive s.worker → is_eager (after_scan s) ≡ true
unfolding after_scan
after_scan-eager s alive = ground arith

sort-Alive : (heap : Heap) (w : Worker) → Alive w → Always Alive (sort_no_lock heap w)
unfolding sort_no_lock
sort-Alive heap w alive =
    if-Always Alive (ltb 1 (length w.running_groups)) _ _
      (any-Always Alive (with_keys heap w.running_groups) _ (λ keyed. alive)) alive

balance-Alive :
    (heap : Heap) (w : Worker)
    → Alive w
    → Always (λ (p : Heap × Worker). Alive p.1) (balance_no_lock heap w)
unfolding balance_no_lock
balance-Alive heap w alive = go w.pending_groups
  where
    go :
        (pending : List Group)
        → Always
            (λ (p : Heap × Worker). Alive p.1)
            (elim pending [
              | [] ↦ ok (heap, w)
              | group ∷ groups ↦ front_time heap w.running_groups >>= λ time. ok (
                set_group_times time (group ∷ groups) heap,
                record w {
                  running_groups = (group ∷ groups) ++ w.running_groups;
                  pending_groups = [];
                },
              )
            ])
    go [] = alive
    go (g ∷ groups) = any-Always _ (front_time heap w.running_groups) _ (λ time. alive)

needed-Alive :
    (heap : Heap) (w : Worker)
    → Alive w
    → Always (λ (p : Heap × Worker). Alive p.1) (balance_if_needed heap w)
unfolding balance_if_needed
needed-Alive heap w alive =
    if-Always _ w.need_balance _ _
      (bind-Always (λ (p : Heap × Worker). Alive p.1) _ (balance_no_lock heap w) _
        (balance-Alive heap w alive) (λ p a. a))
      alive

task_of-eager : (t : Option Task) → is_eager (task_of t) ≡ true
task_of-eager none = refl
task_of-eager (some t) = refl

get_next_task-Always :
    (heap : Heap) (w : Worker) (now : Point)
    → Alive w
    → Always (λ (p : Heap × Worker × Next). is_eager p.2 ≡ true) (get_next_task heap w now)
unfolding get_next_task
get_next_task-Always heap w now alive = go w.immediate_task_queue
  where
    go :
        (queue : List (Option Task))
        → Always
            (λ (p : Heap × Worker × Next). is_eager p.2 ≡ true)
            (elim queue [
              | task ∷ tasks ↦ ok (heap, record w { immediate_task_queue = tasks }, task_of task)
              | [] ↦ sort_no_lock heap w >>= λ w1. balance_if_needed heap w1 >>= λ p.
                  scan_groups p.1.running_groups now p.0 p.1 none >>= λ s.
                  ok (s.heap, s.worker, after_scan s)
            ])
    go (t ∷ tasks) = task_of-eager t
    go [] = bind-Always Alive _ (sort_no_lock heap w) _ (sort-Alive heap w alive) (λ w1 a1.
        bind-Always (λ (p : Heap × Worker). Alive p.1) _ (balance_if_needed heap w1) _
          (needed-Alive heap w1 a1)
          (λ p a.
            bind-Always (λ s. Alive s.worker) _ (scan_groups p.1.running_groups now p.0 p.1 none) _
              (scan-Alive p.1.running_groups now p.0 p.1 none a) after_scan-eager))

-- While its worker is not terminated, `GetNextTask` never returns an idle task and never waits: whatever it
-- returns, it returns at once, and it is a task or null.
pub never_idle :
    (heap heap' : Heap) (w w' : Worker) (now : Point) (next : Next)
    → w.is_terminated ≡ false
    → get_next_task heap w now ≡ ok (heap', w', next)
    → is_eager next ≡ true
never_idle heap heap' w w' now next alive e =
    Always-ok _ (get_next_task heap w now) (heap', w', next) (get_next_task-Always heap w now alive)
      e
