-- ===== src/LoopWorker/Drain.antt =====
-- src/platform/adr/loop_worker_impl.cc: a terminated worker that does not exit immediately, as its events come.
use footstone.Base.{
  ◌<◌, ◌≡◌, refl, ap, ◌∙◌, Bool, true, false, List, [], ◌∷◌, length, ok, ◌>>=◌, arith, ◌==◌, eq→==,
}
use footstone.Time.{Delta, point_minus}
use footstone.Runner.{Task}
use footstone.Scheduler.{Heap, Worker}
use footstone.Scheduler.Next.{
  run, wait, get_next_task, sort_no_lock, balance_if_needed, balance_no_lock, scan_groups,
  after_scan,
}
use footstone.Manager.Draining.{retired, LeavesWorker, run_task-task}
use footstone.LoopWorker.{
  Loop, Poll, PollResult, poll_once, after_poll, poll_wake, poll_callback, poll_timeout, poll_error,
  set_worker, wait_if, wait_for, terminate_worker, on_event_fired, run_until_idle, run_loop,
}

-- A poll in which the descriptor is ready, the other threads leave the worker alone, the task leaves it as it is,
-- and the time that it takes is a TimeDelta.
pub record IsPlain (poll : Poll) : Type 0 where
  pub ready : poll.fired ≡ true
  pub alone : (p : Heap × Worker) → poll.others p ≡ p
  pub modest : LeavesWorker poll.effect
  pub measurable : (d : Delta) × (point_minus poll.end poll.begin ≡ ok d)

abbrev pub AllPlain : List Poll → Type 0
AllPlain [] = Unit {0}
AllPlain (poll ∷ polls) = IsPlain poll × AllPlain polls

-- The loop with a retired worker.
abbrev pub has_tasks : Loop → Worker → Bool → List Task → Loop
has_tasks s w b tasks = record s { worker = retired w b tasks; has_task_pending = true }

set_worker-same :
    (s : Loop) (heap : Heap) (w : Worker)
    → (w.notified == s.worker.notified) ≡ true
    → set_worker s heap w ≡ record s { heap = heap; worker = w }
unfolding set_worker
set_worker-same s heap w e = rw e

module _ (poll : Poll) (plain : IsPlain poll) (s : Loop) (w : Worker) (b : Bool) where
  on_event_fired-task :
      (t : Task) (tasks : List Task)
      → (heap : Heap) × (on_event_fired poll (has_tasks s w b (t ∷ tasks))
          ≡ ok (record (has_tasks s w b tasks) { heap = heap }))
  unfolding on_event_fired get_next_task wait_if
  on_event_fired-task t tasks =
      let st = has_tasks s w b (t ∷ tasks) in
      let heap = (poll.effect (run t) (s.heap, retired w b tasks)).0 in
      let (d, e) = plain.measurable in
      (
        heap,
        ap (λ o. o >>= λ q. ok (record (set_worker st q.0 q.1) { has_task_pending = q.2 }))
              (run_task-task poll.effect plain.modest w poll.now poll.begin poll.end s.heap b t
                tasks d e)
            ∙ ap (λ (r : Loop). ok (record r { has_task_pending = true }))
                (set_worker-same st heap (retired w b tasks) (eq→== w.notified w.notified refl)),
      )

  get_next_task-none :
      (b' : Bool)
      → get_next_task s.heap (retired w b' []) poll.now
        ≡ ok (s.heap, retired w false [], wait w.min_wait_time)
  unfolding get_next_task sort_no_lock balance_if_needed balance_no_lock scan_groups after_scan
  get_next_task-none true = refl
  get_next_task-none false = refl

  -- `GetNextTask` and `RunTask` have found nothing.
  on_event_fired-none :
      on_event_fired poll (has_tasks s w b [])
      ≡ ok (record (wait_for (has_tasks s w b []) w.min_wait_time) {
        worker = retired w false [];
        has_task_pending = false;
      })
  unfolding on_event_fired wait_if
  on_event_fired-none =
      let st = wait_for (has_tasks s w b []) w.min_wait_time in
      rw (get_next_task-none b) (
        ap (λ (r : Loop). ok (record r { has_task_pending = false }))
          (set_worker-same st s.heap (retired w false []) (eq→== w.notified w.notified refl)))

  poll_once-plain :
      (tasks : List Task)
      → let st = has_tasks s w b tasks in
        poll_once poll st ≡ (on_event_fired poll st >>= λ s'. ok (after_poll poll.result s'))
  unfolding poll_once
  poll_once-plain tasks =
      let st = has_tasks s w b tasks in
      rw (
        plain.alone (s.heap, retired w b tasks),
        set_worker-same st s.heap (retired w b tasks) (eq→== w.notified w.notified refl),
        plain.ready,
      )

after_poll-retired :
    (r : PollResult) (s : Loop) (w : Worker) (b : Bool) (tasks : List Task)
    → after_poll r (record s { worker = retired w b tasks })
      ≡ record s { worker = retired w b tasks }
unfolding after_poll terminate_worker
after_poll-retired poll_timeout s w b tasks = refl
after_poll-retired poll_error s w b tasks = refl
after_poll-retired poll_wake s w b tasks = refl
after_poll-retired poll_callback s w b tasks = refl

module _ (w : Worker) where
  abbrev idle : Loop → Loop
  idle s = record s { worker = retired w false []; has_task_pending = false }

  run_until_idle-idle : (polls : List Poll) (s : Loop) → run_until_idle polls (idle s) ≡ ok (idle s)
  unfolding run_until_idle
  run_until_idle-idle [] s = refl
  run_until_idle-idle (poll ∷ polls) s = refl

  run_until_idle-has_tasks :
      (polls : List Poll) (tasks : List Task) (s : Loop) (b : Bool)
      → AllPlain polls
      → length tasks < length polls
      → (s' : Loop) × (run_until_idle polls (has_tasks s w b tasks) ≡ ok s')
        × (s'.worker ≡ retired w false [])
  unfolding run_until_idle
  run_until_idle-has_tasks [] tasks s b plain e = absurd (omega (arith, e))
  run_until_idle-has_tasks (poll ∷ polls) [] s b (here, plain) e =
      let waited = wait_for (has_tasks s w b []) w.min_wait_time in
      (
        idle waited,
        rw
            (
              poll_once-plain poll here s w b [],
              on_event_fired-none poll here s w b,
              after_poll-retired poll.result (record waited { has_task_pending = false }) w false
                  [],
            )
            (run_until_idle-idle polls waited),
        refl,
      )
  run_until_idle-has_tasks (poll ∷ polls) (t ∷ tasks) s b (here, plain) e =
      let (heap, fired) = on_event_fired-task poll here s w b t tasks in
      let s1 : Loop = record s { heap = heap } in
      let (s', rest, over) = run_until_idle-has_tasks polls tasks s1 b plain (omega (arith, e)) in
      (
        s',
        rw
            (
              poll_once-plain poll here s w b (t ∷ tasks),
              fired,
              after_poll-retired poll.result (has_tasks s1 w b tasks) w b tasks,
            )
            rest,
        over,
      )

  -- A terminated worker without runners that does not exit immediately leaves `RunLoop` when at least one event
  -- more comes than it has immediate tasks, with no immediate task left: for events between which no other
  -- thread changes the worker, and for tasks that leave it as it is and take a time that is a TimeDelta.
  pub run_loop-has_tasks :
      (polls : List Poll) (tasks : List Task) (s : Loop) (b : Bool)
      → AllPlain polls
      → length tasks < length polls
      → (s' : Loop) × (run_loop polls
            (record (has_tasks s w b tasks) { is_exit_immediately = false })
          ≡ ok s')
        × (s'.worker ≡ retired w false [])
  unfolding run_loop
  run_loop-has_tasks polls tasks s b plain e =
      run_until_idle-has_tasks polls tasks (record s { is_exit_immediately = false }) b plain e
