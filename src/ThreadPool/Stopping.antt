-- ===== src/ThreadPool/Stopping.antt =====
-- The notifications and the destructor of a pool.
use footstone.Base.{
  ℕ, zero, suc, ◌+◌, ◌*◌, ◌<◌, ◌≤◌, map, Bool-cases, if◌then◌else◌, ◌≡◌, ◌≢◌, refl, ap, ◌∙◌, ◌⊎◌,
  inl, inr, Bool, true, false, List, [], ◌∷◌, ◌++◌, append-nil, length, arith,
}
use footstone.ThreadPool.{
  Thread, waiting, asleep, running, returned, Pool, enqueue, take_task, finish_task, has_asleep,
  wake, notify_all, Step, client_enqueues, client_notifies, client_notifies_none, client_stops,
  client_notifies_all, thread_sleeps, thread_wakes, thread_takes, thread_finishes, Reach, next,
}
use footstone.Base.Count.{count}
use footstone.ThreadPool.Order.{
  count_running, has_returned, awake, Inv, take_task_lem, take_task-none, Reach-Inv,
}

abbrev pub all_returned : List Thread → Bool
all_returned [] = true
all_returned (waiting ∷ l) = false
all_returned (asleep ∷ l) = false
all_returned (running t ∷ l) = false
all_returned (returned ∷ l) = all_returned l

abbrev pub rank : Thread → ℕ
rank waiting = 1
rank asleep = 2
rank (running t) = 2
rank returned = 0

abbrev pub ranks : List Thread → ℕ
ranks [] = 0
ranks (p ∷ l) = rank p + ranks l

-- A bound on the steps that are left once the pool has been stopped.
abbrev pub steps_left : Pool → ℕ
steps_left s =
    3 * length s.tasks + ranks s.workers + s.to_notify + (if s.to_notify_all then 1 else 0)

ranks-append : (l k : List Thread) → ranks (l ++ k) ≡ ranks l + ranks k
ranks-append [] k = omega arith
ranks-append (p ∷ l) k = omega (arith, ranks-append l k)

swap_ranks :
    (before after : List Thread) (p p' : Thread)
    → ranks (before ++ (p' ∷ after)) + rank p ≡ ranks (before ++ (p ∷ after)) + rank p'
swap_ranks before after p p' =
    omega (arith, ranks-append before (p' ∷ after), ranks-append before (p ∷ after))

ranks-wake : (l : List Thread) → ranks (map wake l) ≤ ranks l
unfolding wake
ranks-wake [] = omega arith
ranks-wake (waiting ∷ l) = omega (arith, ranks-wake l)
ranks-wake (asleep ∷ l) = omega (arith, ranks-wake l)
ranks-wake (running t ∷ l) = omega (arith, ranks-wake l)
ranks-wake (returned ∷ l) = omega (arith, ranks-wake l)

-- Once a pool has been stopped nothing is enqueued, and every step of any thread lowers the bound: no
-- schedule of the threads goes on for ever.
pub stopped_shrinks :
    {s t : Pool} → Step s t → s.stop ≡ true → (t.stop ≡ true) × (steps_left t < steps_left s)
unfolding enqueue finish_task notify_all
stopped_shrinks {s} (client_enqueues task e) stopped = absurd (ground arith)
stopped_shrinks {s} (client_notifies before after e f) stopped =
    (stopped, omega (arith, e, ap ranks f, swap_ranks before after asleep waiting))
stopped_shrinks {s} (client_notifies_none e f) stopped = (stopped, omega (arith, e))
stopped_shrinks {s} (client_stops e) stopped = absurd (ground arith)
stopped_shrinks {s} (client_notifies_all e) stopped =
    (stopped, rw e (omega (arith, ranks-wake s.workers)))
stopped_shrinks {s} (thread_sleeps before after e f) stopped =
    let (_, going) = take_task-none s f in absurd (ground arith)
stopped_shrinks {s} (thread_wakes before after e) stopped =
    (stopped, omega (arith, ap ranks e, swap_ranks before after asleep waiting))
stopped_shrinks {s} (thread_takes {s'} {p} before after e f) stopped =
    elim (take_task_lem s s' p f) [
      | inl (t, rest, has, same, now) ↦
          rw (same, now)
            (
              stopped,
              omega (arith, ap length has, ap ranks e, swap_ranks before after waiting (running t)),
            )
      | inr (empty, _, same, now) ↦
          rw (same, now)
            (stopped, omega (arith, ap ranks e, swap_ranks before after waiting returned))
    ]
stopped_shrinks {s} (thread_finishes before after task e) stopped =
    (stopped, omega (arith, ap ranks e, swap_ranks before after (running task) waiting))

-- Whether a thread wakes up of itself in a step.
abbrev pub is_spurious : {s t : Pool} → Step s t → Bool
is_spurious (client_enqueues task e) = false
is_spurious (client_notifies before after e f) = false
is_spurious (client_notifies_none e f) = false
is_spurious (client_stops e) = false
is_spurious (client_notifies_all e) = false
is_spurious (thread_sleeps before after e f) = false
is_spurious (thread_wakes before after e) = true
is_spurious (thread_takes before after e f) = false
is_spurious (thread_finishes before after task e) = false

-- Any number of steps, in which no thread wakes up without a notification.
pub data Steps : Pool → Pool → Type 0 where
  done : {s : Pool} → Steps s s
  also : {s t u : Pool} (st : Step s t) → is_spurious st ≡ false → Steps t u → Steps s u

-- A thread that has not returned, and where it stands among the others.
find_thread :
    (workers : List Thread)
    → (all_returned workers ≡ true)
      ⊎ ((before after : List Thread) × (p : Thread) × (workers ≡ before ++ (p ∷ after))
          × (p ≢ returned))
find_thread [] = inl refl
find_thread (waiting ∷ l) = inr ([], l, waiting, refl, λ e. cc)
find_thread (asleep ∷ l) = inr ([], l, asleep, refl, λ e. cc)
find_thread (running t ∷ l) = inr ([], l, running t, refl, λ e. cc)
find_thread (returned ∷ l) = elim (find_thread l) [
  | inl all ↦ inl all
  | inr (before, after, p, e, up) ↦ inr (returned ∷ before, after, p, ap (λ k. returned ∷ k) e, up)
]

-- A step that needs no thread to wake up of itself.
abbrev CanGoOn : Pool → Type 0
CanGoOn s = (t : Pool) × (st : Step s t) × (is_spurious st ≡ false)

stands_asleep : (before after : List Thread) → has_asleep (before ++ (asleep ∷ after)) ≡ true
stands_asleep [] after = refl
stands_asleep (waiting ∷ l) after = stands_asleep l after
stands_asleep (asleep ∷ l) after = refl
stands_asleep (running t ∷ l) after = stands_asleep l after
stands_asleep (returned ∷ l) after = stands_asleep l after

-- Once the pool has been stopped there is one for each such thread: a thread that still sleeps is notified.
goes_on :
    {n : ℕ} (s : Pool) (before after : List Thread) (p : Thread)
    → Inv n s
    → s.stop ≡ true
    → s.workers ≡ before ++ (p ∷ after)
    → p ≢ returned
    → CanGoOn s
unfolding take_task
goes_on s before after waiting inv stopped e up = go s.tasks refl
  where
    go : (tasks : List ℕ) → s.tasks ≡ tasks → CanGoOn s
    go [] f = (_, thread_takes {s' = s} {p = returned} before after e (ground arith), refl)
    go (t ∷ rest) f = (
      _,
      thread_takes {s' = record s { tasks = rest; begun = s.begun ++ (t ∷ []) }} {p = running t}
          before after e (ground arith),
      refl,
    )
goes_on s before after asleep inv stopped e up = elim (Bool-cases s.to_notify_all) [
  | inl told ↦ (_, client_notifies_all told, refl)
  | inr none_due ↦
      let quiet = inv.heard stopped none_due in
      absurd (cc (quiet, ap has_asleep e, stands_asleep before after))
]
goes_on s before after (running t) inv stopped e up = (_, thread_finishes before after t e, refl)
goes_on s before after returned inv stopped e up = absurd (up refl)

ends :
    {n : ℕ} (fuel : ℕ) (s : Pool)
    → Reach n s
    → s.stop ≡ true
    → steps_left s < fuel
    → (t : Pool) × Reach n t × Steps s t × (all_returned t.workers ≡ true)
ends zero s r stopped h = absurd (omega arith)
ends (suc fuel) s r stopped h = elim (find_thread s.workers) [
  | inl all ↦ (s, r, done, all)
  | inr (before, after, p, e, up) ↦
      let (u, st, told) = goes_on s before after p (Reach-Inv r) stopped e up in
      let (stopped', less) = stopped_shrinks st stopped in
      let (t, r', sts, all) = ends fuel u (next r st) stopped' (omega arith) in
      (t, r', also st told sts, all)
]

some_returned :
    (workers : List Thread)
    → 0 < length workers
    → all_returned workers ≡ true
    → has_returned workers ≡ true
some_returned [] h e = absurd (omega arith)
some_returned (waiting ∷ l) h e = cc
some_returned (asleep ∷ l) h e = cc
some_returned (running t ∷ l) h e = cc
some_returned (returned ∷ l) h e = refl

none_running :
    (x : ℕ) (workers : List Thread) → all_returned workers ≡ true → count_running x workers ≡ 0
none_running x [] e = refl
none_running x (waiting ∷ l) e = cc
none_running x (asleep ∷ l) e = cc
none_running x (running t ∷ l) e = cc
none_running x (returned ∷ l) e = none_running x l e

-- When the destructor of a pool of one thread or more has joined them all, the queue is empty, and every
-- accepted task has been run exactly as often as it was accepted.
pub joined_pool :
    {threads : ℕ} {s : Pool}
    → 0 < threads
    → Reach threads s
    → all_returned s.workers ≡ true
    → (s.tasks ≡ []) × ((x : ℕ) → count x s.finished ≡ count x s.accepted)
joined_pool {threads} {s} pos r all =
    let inv = Reach-Inv r in
    let (stopped, empty) =
      inv.left (some_returned s.workers (omega (arith, inv.threads_kept)) all) in
    let begun : s.accepted ≡ s.begun =
      inv.in_turn ∙ ap (λ l. s.begun ++ l) empty ∙ append-nil s.begun in
    (empty, λ x. omega (arith, inv.once x, none_running x s.workers all, ap (count x) begun))

-- In every reachable state in which a thread sleeps, the calls of `notify_one` that are due and the threads that
-- are awake are together as many as the tasks in the queue, or more: no task is overlooked. And from every
-- reachable state in which the destructor has set its flag, its `notify_all` and the steps of the threads lead to
-- one in which all have returned, where no thread wakes up without a notification: none sleeps for ever.
pub no_lost_wakeup :
    {threads : ℕ} {s : Pool}
    → Reach threads s
    → (has_asleep s.workers ≡ true → length s.tasks ≤ s.to_notify + awake s.workers)
      × (s.stop ≡ true → (t : Pool) × Reach threads t × Steps s t × (all_returned t.workers ≡ true))
no_lost_wakeup {threads} {s} r =
    ((Reach-Inv r).offered, λ stopped. ends (suc (steps_left s)) s r stopped (omega arith))
