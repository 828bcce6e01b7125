-- ===== src/Runner/Queues.antt =====
-- What a TaskRunner owes its clients: no task is lost or handed out early, posts wake the worker, and what
-- `Clear` does.
use mathlib.Core.List.Perm
use mathlib.Core.List.{Perm, perm_middle, perm-append_left_iff}
use footstone.Base.{
  ℕ, ◌≡◌, ◌≢◌, refl, sym, ◌∙◌, inl, inr, true, List, [], ◌∷◌, ◌++◌, append_assoc, Option, none,
  some, Bool-cases, arith, ok, fault, bad_iterator, failed_check, ◌>>=◌,
}
use footstone.Base.Int.{ℤ}
use footstone.Time.{Point, time_lt, point_plus_delta}
use footstone.Runner.{
  Runner, Task, IdleTask, Entry, push_delayed, get_next, pop_front, post_task, post_delayed_task,
  post_idle_task, clear, clear_queue, clear_idle,
}
use footstone.Runner.Delayed.{
  IsSorted, HasTasks, From, due, later, ready, get_next_lem, push_delayed-IsSorted,
  push_delayed-perm,
}

-- The tasks of the entries of a delayed queue, and all tasks that a runner still has to run.
abbrev pub tasks_of : List Entry → List (Option Task)
tasks_of [] = []
tasks_of ((_, x) ∷ entries) = x ∷ tasks_of entries

abbrev pub all_tasks : Runner → List (Option Task)
all_tasks r = r.task_queue ++ tasks_of r.delayed_task_queue

split-perm :
    (now : Point) (entries : List Entry)
    → Perm (tasks_of entries) (due now entries ++ tasks_of (later now entries))
unfolding due later
split-perm now [] = Perm.refl []
split-perm now ((t, x) ∷ entries) = elim (Bool-cases (time_lt now t)) [
  | inl e ↦ rw e (
      Perm.trans (Perm.cons x (split-perm now entries))
        (Perm.symm (perm_middle (due now entries) _)))
  | inr e ↦ rw e (Perm.cons x (split-perm now entries))
]

-- All deadlines of a list of entries lie behind `now`.
abbrev pub AllLater : Point → List Entry → Type 0
AllLater now [] = Unit {0}
AllLater now ((t, _) ∷ entries) = (time_lt now t ≡ true) × AllLater now entries

later-AllLater : (now : Point) (entries : List Entry) → AllLater now (later now entries)
unfolding later
later-AllLater now [] = tt
later-AllLater now ((t, x) ∷ entries) = elim (Bool-cases (time_lt now t)) [
  | inl e ↦ rw e (e, later-AllLater now entries)
  | inr e ↦ rw e (later-AllLater now entries)
]

later-From : (now t : Point) (entries : List Entry) → From t entries → From t (later now entries)
unfolding later
later-From now t [] f = tt
later-From now t ((u, x) ∷ entries) (a, f) = elim (Bool-cases (time_lt now u)) [
  | inl e ↦ rw e (a, later-From now t entries f)
  | inr e ↦ rw e (later-From now t entries f)
]

later-IsSorted :
    (now : Point) (entries : List Entry) → IsSorted entries → IsSorted (later now entries)
unfolding later
later-IsSorted now [] s = tt
later-IsSorted now ((t, x) ∷ entries) (f, s) = elim (Bool-cases (time_lt now t)) [
  | inl e ↦ rw e (later-From now t entries f, later-IsSorted now entries s)
  | inr e ↦ rw e (later-IsSorted now entries s)
]

later-HasTasks :
    (now : Point) (entries : List Entry) → HasTasks entries → HasTasks (later now entries)
unfolding later
later-HasTasks now [] k = tt
later-HasTasks now ((t, some x) ∷ entries) k = elim (Bool-cases (time_lt now t)) [
  | inl e ↦ rw e (later-HasTasks now entries k)
  | inr e ↦ rw e (later-HasTasks now entries k)
]
later-HasTasks now ((t, none) ∷ entries) k = elim k [ ]

handed_out :
    (now : Point) (r : Runner) (entries : List Entry) (l : List (Option Task))
    → Perm (all_tasks r) (l ++ tasks_of entries)
    → l ≢ []
    → Perm (all_tasks r) ((pop_front l).0 ∷ ((pop_front l).1 ++ tasks_of entries))
unfolding pop_front
handed_out now r entries [] p ne = absurd (ne refl)
handed_out now r entries (x ∷ l) p ne = p

front_first : (l : List (Option Task)) → l ≢ [] → (pop_front l).0 ∷ (pop_front l).1 ≡ l
unfolding pop_front
front_first [] ne = absurd (ne refl)
front_first (x ∷ l) ne = refl

both_nil {ℓ} : {A : Type ℓ} (q d : List A) → q ++ d ≡ [] → (q ≡ []) × (d ≡ [])
both_nil [] d e = (refl, e)
both_nil (x ∷ q) d e = cc

front_nil : (l : List (Option Task)) → l ≡ [] → ((pop_front l).0 ≡ none) × ((pop_front l).1 ≡ [])
unfolding pop_front
front_nil [] e = (refl, refl)
front_nil (x ∷ l) e = cc

due-nil : (now : Point) (entries : List Entry) → due now entries ≡ [] → later now entries ≡ entries
unfolding due later
due-nil now [] e = refl
due-nil now ((t, x) ∷ entries) e = ground (arith, due-nil now entries)

nothing :
    (r : Runner) {q : List (Option Task)} {d : List Entry}
    → q ≡ []
    → r.task_queue ≡ []
    → d ≡ r.delayed_task_queue
    → record r { task_queue = q; delayed_task_queue = d } ≡ r
nothing r p q e = λ i. record r { task_queue = (p ∙ sym q) i; delayed_task_queue = e i }

-- Where the delayed queue is in order and holds no null task, `GetNext` loses no task and makes none up: a
-- task that is ready or due is handed out whenever there is one, what is handed out and what it leaves in the
-- task queue are the ready and the due tasks and no other, and the delayed queue keeps exactly the entries
-- that are not yet due, in order. Where nothing is ready or due, nothing changes.
pub get_next-perm :
    (r : Runner) (now : Point)
    → IsSorted r.delayed_task_queue
    → HasTasks r.delayed_task_queue
    → let (task, r') = get_next r now in
      (ready r now ≢ []
        → Perm (all_tasks r) (task ∷ all_tasks r') × (task ∷ r'.task_queue ≡ ready r now))
      × (ready r now ≡ [] → (task ≡ none) × (r' ≡ r))
      × (r'.delayed_task_queue ≡ later now r.delayed_task_queue)
      × AllLater now r'.delayed_task_queue
      × IsSorted r'.delayed_task_queue
      × HasTasks r'.delayed_task_queue
get_next-perm r now s k = rw (get_next_lem r now s k) (
  λ ne. (
    handed_out now r (later now r.delayed_task_queue) (ready r now) whole ne,
    front_first (ready r now) ne,
  ),
  λ e.
      let (no_tasks, no_due) =
        both_nil r.task_queue (due now r.delayed_task_queue) (unfold ready in e) in
      let (p, q) = front_nil (ready r now) e in
      (p, nothing r q no_tasks (due-nil now r.delayed_task_queue no_due)),
  refl,
  later-AllLater now r.delayed_task_queue,
  later-IsSorted now r.delayed_task_queue s,
  later-HasTasks now r.delayed_task_queue k,
)
  where
    whole : Perm (all_tasks r) (ready r now ++ tasks_of (later now r.delayed_task_queue))
    whole =
        unfold ready in
        rw append_assoc
          ((perm-append_left_iff r.task_queue).1 (split-perm now r.delayed_task_queue))

-- Every post wakes the worker of the runner, or fails its check where there is no worker. A task that
-- is posted goes last; a delayed one goes in at its deadline, and the queue stays in order.
posts :
    (r : Runner) (w : ℕ) (task : Option Task) (delay now : ℤ) (deadline : Point)
    → r.worker ≡ some w
    → point_plus_delta now delay ≡ ok deadline
    → IsSorted r.delayed_task_queue
    → (post_task r task ≡ ok (record r { task_queue = r.task_queue ++ (task ∷ []) }, w))
      × ((r' : Runner) × (post_delayed_task r task delay now ≡ ok (r', w))
          × IsSorted r'.delayed_task_queue
          × Perm r'.delayed_task_queue ((deadline, task) ∷ r.delayed_task_queue)
          × (r'.task_queue ≡ r.task_queue))
unfolding post_task post_delayed_task
posts r w task delay now deadline e d s = (
  rw e,
  (
    record r { delayed_task_queue = push_delayed (deadline, task) r.delayed_task_queue },
    rw (d, e),
    push_delayed-IsSorted deadline task r.delayed_task_queue s,
    push_delayed-perm (deadline, task) r.delayed_task_queue,
    refl,
  ),
)

-- A runner without a worker, such as every one that `CreateTaskRunner` makes unschedulable, cannot be
-- given a task of any kind: the process aborts.
posts_without_worker :
    (r : Runner) (task : Option Task) (idle : Option IdleTask) (delay now : ℤ) (deadline : Point)
    → r.worker ≡ none
    → point_plus_delta now delay ≡ ok deadline
    → (post_task r task ≡ fault failed_check)
      × (post_delayed_task r task delay now ≡ fault failed_check)
      × (post_idle_task r idle ≡ fault failed_check)
unfolding post_task post_delayed_task post_idle_task
posts_without_worker r task idle delay now deadline e d = (rw e, rw (d, e), rw e)

clear_queue-nil {ℓ} : {A : Type ℓ} (q : List A) → clear_queue q ≡ []
unfolding clear_queue
clear_queue-nil [] = refl
clear_queue-nil (x ∷ q) = clear_queue-nil q

clear_idle-nil :
    (idle : List (Option IdleTask))
    → clear_idle idle [] ≡ (elim idle [ [] ↦ ok [] | _ ∷ _ ↦ fault bad_iterator ])
unfolding clear_idle
clear_idle-nil [] = refl
clear_idle-nil (i ∷ idle) = refl

-- `Clear` empties the queues of ready and delayed tasks; with an idle task in the third queue it
-- pops the empty delayed queue instead, which is undefined.
clear_outcomes :
    (r : Runner)
    → (r.idle_task_queue ≡ []
        → clear r ≡ ok (record r { task_queue = []; delayed_task_queue = [] }))
      × (r.idle_task_queue ≢ [] → clear r ≡ fault bad_iterator)
unfolding clear
clear_outcomes r =
    rw
      (
        clear_queue-nil r.task_queue,
        clear_queue-nil r.delayed_task_queue,
        clear_idle-nil r.idle_task_queue,
      )
      (λ e. rw e, λ ne. not_nil r.idle_task_queue ne)
  where
    not_nil :
        (idle : List (Option IdleTask))
        → idle ≢ []
        → ((elim idle [ [] ↦ ok [] | _ ∷ _ ↦ fault bad_iterator ])
            >>= (λ d'. ok (record r { task_queue = []; delayed_task_queue = d' })))
          ≡ fault bad_iterator
    not_nil [] ne = absurd (ne refl)
    not_nil (i ∷ idle) ne = refl
