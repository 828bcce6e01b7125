-- ===== src/ThreadPool/Order.antt =====
-- What holds in every state that a pool can reach: no task is lost, run twice or begun out of turn.
use footstone.Base.{
  ℕ, zero, suc, ◌+◌, ◌≤◌, map, none, ◌≡◌, refl, sym, ap, ◌∙◌, Bool, true, false, List, [], ◌∷◌,
  ◌++◌, append_assoc, replicate, length, length-append, length-replicate, some, if◌then◌else◌, ◌==◌,
  ◌||◌, ◌⊎◌, inl, inr, arith,
}
use footstone.Base.Count.{count, count-append}
use footstone.ThreadPool.{
  Thread, waiting, asleep, running, returned, Pool, new_pool, enqueue, take_task, finish_task,
  begin_stop, has_asleep, wake, notify_all, client_notifies, client_notifies_none,
  client_notifies_all, thread_sleeps, thread_wakes, Step, client_enqueues, client_stops,
  thread_takes, thread_finishes, Reach, begin, next,
}

-- How often a task is being run.
abbrev pub count_running : ℕ → List Thread → ℕ
count_running x [] = 0
count_running x (waiting ∷ l) = count_running x l
count_running x (asleep ∷ l) = count_running x l
count_running x (running t ∷ l) = (if t == x then 1 else 0) + count_running x l
count_running x (returned ∷ l) = count_running x l

count_running-append :
    (x : ℕ) (l k : List Thread) → count_running x (l ++ k) ≡ count_running x l + count_running x k
count_running-append x [] k = omega arith
count_running-append x (waiting ∷ l) k = count_running-append x l k
count_running-append x (asleep ∷ l) k = count_running-append x l k
count_running-append x (running t ∷ l) k = omega (arith, count_running-append x l k)
count_running-append x (returned ∷ l) k = count_running-append x l k

count_running-replicate : (x n : ℕ) → count_running x (replicate n waiting) ≡ 0
count_running-replicate x zero = refl
count_running-replicate x (suc n) = count_running-replicate x n

abbrev pub has_returned : List Thread → Bool
has_returned [] = false
has_returned (waiting ∷ l) = has_returned l
has_returned (asleep ∷ l) = has_returned l
has_returned (running t ∷ l) = has_returned l
has_returned (returned ∷ l) = true

-- How many threads will still test the predicate.
abbrev pub awake : List Thread → ℕ
awake [] = 0
awake (waiting ∷ l) = 1 + awake l
awake (asleep ∷ l) = awake l
awake (running t ∷ l) = 1 + awake l
awake (returned ∷ l) = awake l

awake-append : (l k : List Thread) → awake (l ++ k) ≡ awake l + awake k
awake-append [] k = omega arith
awake-append (waiting ∷ l) k = omega (arith, awake-append l k)
awake-append (asleep ∷ l) k = awake-append l k
awake-append (running t ∷ l) k = omega (arith, awake-append l k)
awake-append (returned ∷ l) k = awake-append l k

has_asleep-append : (l k : List Thread) → has_asleep (l ++ k) ≡ has_asleep l || has_asleep k
has_asleep-append [] k = refl
has_asleep-append (waiting ∷ l) k = has_asleep-append l k
has_asleep-append (asleep ∷ l) k = refl
has_asleep-append (running t ∷ l) k = has_asleep-append l k
has_asleep-append (returned ∷ l) k = has_asleep-append l k

has_asleep-replicate : (n : ℕ) → has_asleep (replicate n waiting) ≡ false
has_asleep-replicate zero = refl
has_asleep-replicate (suc n) = has_asleep-replicate n

-- What `notify_all` makes of the threads.
wake_lem :
    (l : List Thread)
    → (length (map wake l) ≡ length l)
      × ((x : ℕ) → count_running x (map wake l) ≡ count_running x l)
      × (has_returned (map wake l) ≡ has_returned l)
      × (has_asleep (map wake l) ≡ false)
unfolding wake
wake_lem [] = (refl, λ x. refl, refl, refl)
wake_lem (waiting ∷ l) = let (a, b, c, d) = wake_lem l in (omega (arith, a), b, c, d)
wake_lem (asleep ∷ l) = let (a, b, c, d) = wake_lem l in (omega (arith, a), b, c, d)
wake_lem (running t ∷ l) =
    let (a, b, c, d) = wake_lem l in (omega (arith, a), λ x. omega (arith, b x), c, d)
wake_lem (returned ∷ l) = let (a, b, c, d) = wake_lem l in (omega (arith, a), b, refl, d)

pub record Inv (threads : ℕ) (s : Pool) : Type 0 where
  pub threads_kept : length s.workers ≡ threads
  pub in_turn : s.accepted ≡ s.begun ++ s.tasks
  pub once : (x : ℕ) → count x s.begun ≡ count x s.finished + count_running x s.workers
  pub left : has_returned s.workers ≡ true → (s.stop ≡ true) × (s.tasks ≡ [])
  pub heard : s.stop ≡ true → s.to_notify_all ≡ false → has_asleep s.workers ≡ false
  pub offered : has_asleep s.workers ≡ true → length s.tasks ≤ s.to_notify + awake s.workers

has_returned-append : (l k : List Thread) → has_returned (l ++ k) ≡ has_returned l || has_returned k
has_returned-append [] k = refl
has_returned-append (waiting ∷ l) k = has_returned-append l k
has_returned-append (asleep ∷ l) k = has_returned-append l k
has_returned-append (running t ∷ l) k = has_returned-append l k
has_returned-append (returned ∷ l) k = refl

has_returned-replicate : (n : ℕ) → has_returned (replicate n waiting) ≡ false
has_returned-replicate zero = refl
has_returned-replicate (suc n) = has_returned-replicate n

enqueue_lem :
    (s s' : Pool) (task : ℕ)
    → enqueue s task ≡ some s'
    → (s.stop ≡ false)
      × (s' ≡ record s {
        tasks = s.tasks ++ (task ∷ []);
        to_notify = s.to_notify + 1;
        accepted = s.accepted ++ (task ∷ []);
      })
unfolding enqueue
enqueue_lem s s' task e = ground arith

pub take_task_lem :
    (s s' : Pool) (p : Thread)
    → take_task s ≡ some (s', p)
    → ((t : ℕ) × (rest : List ℕ) × (s.tasks ≡ t ∷ rest)
        × (s' ≡ record s { tasks = rest; begun = s.begun ++ (t ∷ []) })
        × (p ≡ running t))
      ⊎ ((s.tasks ≡ []) × (s.stop ≡ true) × (s' ≡ s) × (p ≡ returned))
unfolding take_task
take_task_lem s s' p e = go s.tasks refl
  where
    go :
        (tasks : List ℕ)
        → s.tasks ≡ tasks
        → ((t : ℕ) × (rest : List ℕ) × (s.tasks ≡ t ∷ rest)
            × (s' ≡ record s { tasks = rest; begun = s.begun ++ (t ∷ []) })
            × (p ≡ running t))
          ⊎ ((s.tasks ≡ []) × (s.stop ≡ true) × (s' ≡ s) × (p ≡ returned))
    go [] f = inr (f, ground arith, ground arith, ground arith)
    go (t ∷ rest) f = inl (t, rest, f, ground arith, ground arith)

pub take_task-none : (s : Pool) → take_task s ≡ none → (s.tasks ≡ []) × (s.stop ≡ false)
unfolding take_task
take_task-none s e = go s.tasks refl
  where
    go : (tasks : List ℕ) → s.tasks ≡ tasks → (s.tasks ≡ []) × (s.stop ≡ false)
    go [] f = (f, ground arith)
    go (t ∷ rest) f = absurd (ground arith)

-- One thread goes from `p` to `p'`.
module _ (before after : List Thread) where
  swap_length : (p p' : Thread) → length (before ++ (p' ∷ after)) ≡ length (before ++ (p ∷ after))
  swap_length p p' =
      omega (arith, length-append before (p' ∷ after), length-append before (p ∷ after))

  swap_count :
      (x : ℕ) (p p' : Thread)
      → count_running x (before ++ (p' ∷ after)) + count_running x (p ∷ [])
        ≡ count_running x (before ++ (p ∷ after)) + count_running x (p' ∷ [])
  swap_count x p p' =
      ground (
        arith,
        count_running-append x before (p' ∷ after),
        count_running-append x before (p ∷ after),
      )

  swap_returned :
      (p p' : Thread)
      → has_returned (p' ∷ []) ≡ false
      → has_returned (before ++ (p' ∷ after)) ≡ true
      → has_returned (before ++ (p ∷ after)) ≡ true
  swap_returned p p' e f =
      ground
        (arith, has_returned-append before (p' ∷ after), has_returned-append before (p ∷ after))

  swap_asleep :
      (p p' : Thread)
      → has_asleep (p' ∷ []) ≡ false
      → has_asleep (before ++ (p' ∷ after)) ≡ true
      → has_asleep (before ++ (p ∷ after)) ≡ true
  swap_asleep p p' e f =
      ground (arith, has_asleep-append before (p' ∷ after), has_asleep-append before (p ∷ after))

  swap_awake :
      (p p' : Thread)
      → awake (before ++ (p' ∷ after)) + awake (p ∷ [])
        ≡ awake (before ++ (p ∷ after)) + awake (p' ∷ [])
  swap_awake p p' =
      ground (arith, awake-append before (p' ∷ after), awake-append before (p ∷ after))

stays_false : {b : Bool} → (b ≡ true → ⊥) → b ≡ false
stays_false {b = true} h = absurd (h refl)
stays_false {b = false} h = refl

takes-Inv :
    {n : ℕ} {s : Pool} (before after : List Thread) (t : ℕ) (rest : List ℕ)
    → s.workers ≡ before ++ (waiting ∷ after)
    → s.tasks ≡ t ∷ rest
    → Inv n s
    → Inv n (record s {
      tasks = rest;
      begun = s.begun ++ (t ∷ []);
      workers = before ++ (running t ∷ after);
    })
takes-Inv {n} {s} before after t rest e f inv = record {
  threads_kept =
      swap_length before after waiting (running t) ∙ ap length (sym e) ∙ inv.threads_kept;
  in_turn = inv.in_turn ∙ ap (λ l. s.begun ++ l) f ∙ sym (append_assoc s.begun (t ∷ []) rest);
  once = λ x. omega (
    arith,
    inv.once x,
    count-append x s.begun (t ∷ []),
    swap_count before after x waiting (running t),
    ap (count_running x) e,
  );
  left = λ r.
      let (stopped, none_left) =
        inv.left (ap has_returned e ∙ swap_returned before after waiting (running t) refl r) in
      cc;
  heard = λ stopped told.
      let quiet = inv.heard stopped told in
      stays_false (λ a. cc (ap has_asleep e, swap_asleep before after waiting (running t) refl a));
  offered = λ a.
      let enough =
        inv.offered (ap has_asleep e ∙ swap_asleep before after waiting (running t) refl a) in
      omega (arith, enough, ap length f, ap awake e, swap_awake before after waiting (running t));
}

leaves-Inv :
    {n : ℕ} {s : Pool} (before after : List Thread)
    → s.workers ≡ before ++ (waiting ∷ after)
    → s.tasks ≡ []
    → s.stop ≡ true
    → Inv n s
    → Inv n (record s { workers = before ++ (returned ∷ after) })
leaves-Inv {n} {s} before after e f g inv = record {
  threads_kept = swap_length before after waiting returned ∙ ap length (sym e) ∙ inv.threads_kept;
  in_turn = inv.in_turn;
  once = λ x.
      omega (arith, inv.once x, swap_count before after x waiting returned, ap (count_running x) e);
  left = λ r. (g, f);
  heard = λ stopped told.
      let quiet = inv.heard stopped told in
      stays_false (λ a. cc (ap has_asleep e, swap_asleep before after waiting returned refl a));
  offered = λ a. omega (arith, ap length f);
}

finishes-Inv :
    {n : ℕ} {s : Pool} (before after : List Thread) (task : ℕ)
    → s.workers ≡ before ++ (running task ∷ after)
    → Inv n s
    → Inv n
        (record s { workers = before ++ (waiting ∷ after); finished = s.finished ++ (task ∷ []) })
finishes-Inv {n} {s} before after task e inv = record {
  threads_kept =
      swap_length before after (running task) waiting ∙ ap length (sym e) ∙ inv.threads_kept;
  in_turn = inv.in_turn;
  once = λ x. omega (
    arith,
    inv.once x,
    count-append x s.finished (task ∷ []),
    swap_count before after x (running task) waiting,
    ap (count_running x) e,
  );
  left =
      λ r. inv.left (ap has_returned e ∙ swap_returned before after (running task) waiting refl r);
  heard = λ stopped told.
      let quiet = inv.heard stopped told in
      stays_false
        (λ a. cc (ap has_asleep e, swap_asleep before after (running task) waiting refl a));
  offered = λ a.
      let enough =
        inv.offered (ap has_asleep e ∙ swap_asleep before after (running task) waiting refl a) in
      omega (arith, enough, ap awake e, swap_awake before after (running task) waiting);
}

-- A thread wakes up, by a notification or without one.
wakes-Inv :
    {n : ℕ} {s : Pool} (before after : List Thread) (k : ℕ)
    → s.workers ≡ before ++ (asleep ∷ after)
    → s.to_notify ≤ suc k
    → Inv n s
    → Inv n (record s { to_notify = k; workers = before ++ (waiting ∷ after) })
wakes-Inv {n} {s} before after k e less inv = record {
  threads_kept = swap_length before after asleep waiting ∙ ap length (sym e) ∙ inv.threads_kept;
  in_turn = inv.in_turn;
  once = λ x.
      omega (arith, inv.once x, swap_count before after x asleep waiting, ap (count_running x) e);
  left = λ r. inv.left (ap has_returned e ∙ swap_returned before after asleep waiting refl r);
  heard = λ stopped told.
      let quiet = inv.heard stopped told in
      stays_false (λ a. cc (ap has_asleep e, swap_asleep before after asleep waiting refl a));
  offered = λ a.
      let enough = inv.offered (ap has_asleep e ∙ swap_asleep before after asleep waiting refl a) in
      omega (arith, enough, ap awake e, swap_awake before after asleep waiting);
}

-- A thread finds nothing to do, and sleeps.
sleeps-Inv :
    {n : ℕ} {s : Pool} (before after : List Thread)
    → s.workers ≡ before ++ (waiting ∷ after)
    → s.tasks ≡ []
    → s.stop ≡ false
    → Inv n s
    → Inv n (record s { workers = before ++ (asleep ∷ after) })
sleeps-Inv {n} {s} before after e f going inv = record {
  threads_kept = swap_length before after waiting asleep ∙ ap length (sym e) ∙ inv.threads_kept;
  in_turn = inv.in_turn;
  once = λ x.
      omega (arith, inv.once x, swap_count before after x waiting asleep, ap (count_running x) e);
  left = λ r. inv.left (ap has_returned e ∙ swap_returned before after waiting asleep refl r);
  heard = λ stopped told. cc;
  offered = λ a. omega (arith, ap length f);
}

Step-Inv : {n : ℕ} {s t : Pool} → Step s t → Inv n s → Inv n t
unfolding finish_task begin_stop notify_all
Step-Inv {n} {s} (client_enqueues {s'} task e) inv =
    let (going, same) = enqueue_lem s s' task e in
    rw same (record {
      threads_kept = inv.threads_kept;
      in_turn = ap (λ l. l ++ (task ∷ [])) inv.in_turn ∙ append_assoc s.begun s.tasks (task ∷ []);
      once = inv.once;
      left = λ r. let (stopped, none_left) = inv.left r in cc;
      heard = inv.heard;
      offered = λ a. omega (arith, inv.offered a, length-append s.tasks (task ∷ []));
    })
Step-Inv {n} {s} (client_notifies before after e f) inv =
    wakes-Inv before after _ f (omega (arith, e)) inv
Step-Inv {n} {s} (client_notifies_none e f) inv = record {
  threads_kept = inv.threads_kept;
  in_turn = inv.in_turn;
  once = inv.once;
  left = inv.left;
  heard = inv.heard;
  offered = λ a. cc;
}
Step-Inv {n} {s} (client_stops e) inv = record {
  threads_kept = inv.threads_kept;
  in_turn = inv.in_turn;
  once = inv.once;
  left = λ r. (refl, (inv.left r).1);
  heard = λ stopped told. cc;
  offered = inv.offered;
}
Step-Inv {n} {s} (client_notifies_all e) inv =
    let (same_length, same_count, same_returned, none_asleep) = wake_lem s.workers in
    record {
      threads_kept = same_length ∙ inv.threads_kept;
      in_turn = inv.in_turn;
      once = λ x. inv.once x ∙ ap (λ k. count x s.finished + k) (sym (same_count x));
      left = λ r. inv.left (sym same_returned ∙ r);
      heard = λ stopped told. none_asleep;
      offered = λ a. cc;
    }
Step-Inv {n} {s} (thread_sleeps before after e f) inv =
    let (empty, going) = take_task-none s f in sleeps-Inv before after e empty going inv
Step-Inv {n} {s} (thread_wakes before after e) inv =
    wakes-Inv before after s.to_notify e (omega arith) inv
Step-Inv {n} {s} (thread_takes {s'} {p} before after e f) inv = elim (take_task_lem s s' p f) [
  | inl (t, rest, has, same, now) ↦ rw (same, now) (takes-Inv before after t rest e has inv)
  | inr (empty, stopped, same, now) ↦ rw (same, now) (leaves-Inv before after e empty stopped inv)
]
Step-Inv {n} {s} (thread_finishes before after task e) inv = finishes-Inv before after task e inv

new-Inv : (n : ℕ) → Inv n (new_pool n)
unfolding new_pool
new-Inv n = record {
  threads_kept = length-replicate n waiting;
  in_turn = refl;
  once = λ x. omega (arith, count_running-replicate x n);
  left = λ r. cc (has_returned-replicate n);
  heard = λ stopped told. has_asleep-replicate n;
  offered = λ a. cc (has_asleep-replicate n);
}

pub Reach-Inv : {n : ℕ} {s : Pool} → Reach n s → Inv n s
Reach-Inv {n} begin = new-Inv n
Reach-Inv (next r st) = Step-Inv st (Reach-Inv r)

-- In every reachable state the tasks that have begun are those accepted first, in that order; each of them
-- is finished or being run, as often as it was accepted, and a thread runs one at a time.
pub tasks_in_turn :
    {threads : ℕ} {s : Pool}
    → Reach threads s
    → (s.accepted ≡ s.begun ++ s.tasks)
      × ((x : ℕ) → count x s.begun ≡ count x s.finished + count_running x s.workers)
      × (length s.workers ≡ threads)
tasks_in_turn r = let inv = Reach-Inv r in (inv.in_turn, inv.once, inv.threads_kept)
