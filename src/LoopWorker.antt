-- ===== src/LoopWorker.antt =====
-- src/platform/adr/loop_worker_impl.cc: the worker of an Android looper, which runs a task for each event of
-- its timerfd. The looper and the timerfd are the system's: what a poll does is an argument, and `armed` is
-- what the descriptor was last set to, with the flag. `time_t` has 64 bits.
pub mod Alarm
pub mod Rounds
pub mod Drain
mod Tests
use footstone.Base.{
  ℕ, ◌+◌, ◌-◌, ◌/◌, ◌%◌, ◌^◌, Bool, true, false, not, ◌||◌, List, [], ◌∷◌, Option, none, some, ◌==◌,
  ltb, if◌then◌else◌, Outcome, ok, fault, no_return, ◌>>=◌,
}
use footstone.Base.Int.{ℤ, pos, negsuc}
use footstone.Time.{Delta, Point, Spec}
use footstone.Scheduler.{Heap, Worker, new_worker}
use footstone.Scheduler.Next.{Next, run, run_idle, nothing, wait, get_next_task, run_task}

-- `struct itimerspec`
pub record ItimerSpec : Type 0 where
  pub it_interval : Spec
  pub it_value : Spec

unfoldable pub set_itimerspec : ℕ → ItimerSpec
set_itimerspec nano_secs =
    let value : Spec = record {
      tv_sec = pos (nano_secs / 1000000000);
      tv_nsec = pos (nano_secs % 1000000000);
    } in
    record { it_interval = value; it_value = value }

-- The flags of `timerfd_settime`: none, or TFD_TIMER_ABSTIME.
pub data TimerFlags : Type 0 where
  no_flags tfd_timer_abstime : TimerFlags

-- The worker's fields, with the runners that its pointers lead to.
pub record Loop : Type 0 where
  pub heap : Heap
  pub worker : Worker
  pub is_exit_immediately : Bool
  pub has_task_pending : Bool
  pub armed : Option (TimerFlags × ItimerSpec)

unfoldable pub new_loop : Heap → Bool → ℕ → Loop
unfolding new_worker
new_loop heap is_schedulable group_id = record {
  heap = heap;
  worker = new_worker is_schedulable group_id;
  is_exit_immediately = true;
  has_task_pending = true;
  armed = none;
}

unfoldable pub terminate_worker : Loop → Loop
terminate_worker s = record s { worker = record s.worker { is_terminated = true } }

unfoldable pub notify : Loop → Loop
unfolding set_itimerspec
notify s = record s { armed = some (tfd_timer_abstime, set_itimerspec 1) }

-- The conversion of an int64_t to uint64_t.
unfoldable pub to_uint64 : ℤ → ℕ
to_uint64 (pos n) = n % 2 ^ 64
to_uint64 (negsuc n) = 2 ^ 64 - 1 - n % 2 ^ 64

unfoldable pub wait_for : Loop → Delta → Loop
unfolding set_itimerspec to_uint64
wait_for s delta =
    let nano_secs = to_uint64 delta in
    let spec = set_itimerspec (if ltb nano_secs 1 then 1 else nano_secs) in
    record s { armed = some (tfd_timer_abstime, spec) }

-- The worker after a call that may have notified it.
unfoldable pub set_worker : Loop → Heap → Worker → Loop
unfolding notify
set_worker s heap w =
    let s' = record s { heap = heap; worker = w } in
    if w.notified == s.worker.notified then s' else notify s'

-- `GetNextTask` waits before it returns null.
unfoldable pub wait_if : Loop → Next → Loop
unfolding wait_for
wait_if s next = elim next [ run _ ↦ s | run_idle _ _ ↦ s | nothing ↦ s | wait d ↦ wait_for s d ]

-- What a call of ALooper_pollOnce returns.
pub data PollResult : Type 0 where
  poll_wake poll_callback poll_timeout poll_error : PollResult

-- What happens in one call: what other threads do to the worker while it blocks, whether the callback gets
-- ALOOPER_EVENT_INPUT, and for its task what that does and the times of `RunTask`.
pub record Poll : Type 0 where
  pub result : PollResult
  pub others : Heap × Worker → Heap × Worker
  pub fired : Bool
  pub effect : Next → Heap × Worker → Heap × Worker
  pub now : Point
  pub begin : Point
  pub end : Point

unfoldable pub on_event_fired : Poll → Loop → Outcome Loop
unfolding run_task set_worker wait_if
on_event_fired poll s = do
  p ← get_next_task s.heap s.worker poll.now
  q ← run_task poll.effect poll.now poll.begin poll.end s.heap s.worker
  ok (record (set_worker (wait_if s p.2) q.0 q.1) { has_task_pending = q.2 })

-- `if (result == ALOOPER_POLL_TIMEOUT || result == ALOOPER_POLL_ERROR)`
unfoldable pub after_poll : PollResult → Loop → Loop
unfolding terminate_worker
after_poll poll_timeout s = terminate_worker s
after_poll poll_error s = terminate_worker s
after_poll poll_wake s = s
after_poll poll_callback s = s

-- One round of `RunLoop`.
unfoldable pub poll_once : Poll → Loop → Outcome Loop
unfolding on_event_fired set_worker after_poll
poll_once poll s = do
  let p = poll.others (s.heap, s.worker)
  let s1 = set_worker s p.0 p.1
  s2 ← if poll.fired then on_event_fired poll s1 else ok s1
  ok (after_poll poll.result s2)

-- The two loops of `RunLoop`. A poll has no time limit: without another one the call does not return.
unfoldable pub run_until_terminated : List Poll → Loop → Outcome Loop
unfolding poll_once
run_until_terminated [] s = if not s.worker.is_terminated then fault no_return else ok s
run_until_terminated (poll ∷ polls) s = elim s.worker.is_terminated [
  | true ↦ ok s
  | false ↦ poll_once poll s >>= λ s'. run_until_terminated polls s'
]

unfoldable pub run_until_idle : List Poll → Loop → Outcome Loop
unfolding poll_once
run_until_idle [] s =
    if not s.worker.is_terminated || s.has_task_pending then fault no_return else ok s
run_until_idle (poll ∷ polls) s = elim (not s.worker.is_terminated || s.has_task_pending) [
  | false ↦ ok s
  | true ↦ poll_once poll s >>= λ s'. run_until_idle polls s'
]

unfoldable pub run_loop : List Poll → Loop → Outcome Loop
unfolding run_until_terminated run_until_idle
run_loop polls s =
    if s.is_exit_immediately then run_until_terminated polls s else run_until_idle polls s
