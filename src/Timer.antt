-- ===== src/Timer.antt =====
-- src/footstone/base_timer.cc; the children have the three kinds of timer. What a timer does
-- to others is a list of acts: the posts to its runner, whose task calls `OnScheduledTaskInvoked` of the
-- timer, and the user's closures that it calls. Readings of the clock in one call give the time `now`.
pub mod OneShot
pub mod Repeating
pub mod Idle
pub mod Firing
pub mod OnRunner
pub mod Schedule
pub mod Runs
pub mod Late
mod Tests
mod RunTests
use footstone.Base.{
  ℕ, Bool, true, false, not, ◌&&◌, List, [], ◌∷◌, ◌++◌, Option, none, some, if◌then◌else◌, Outcome,
  ok, fault, null_pointer, or_fault, ◌>>=◌,
}
use footstone.Time.{Delta, Point, zero_delta, time_lt, point_plus_delta, point_minus}
use footstone.Runner.{IdleParam}

pub data Act : Type 0 where
  posted : Act
  posted_delayed : Delta → Act
  posted_idle : Act
  posted_user_idle : ℕ → Act
  ran : ℕ → Act
  ran_idle : ℕ → IdleParam → Act

-- The fields of `BaseTimer`, with `user_task_` or `idle_task_` as `user_task`; `has_runner` says that the
-- weak pointer to the runner still leads to it.
pub record Timer : Type 0 where
  pub is_running : Bool
  pub has_runner : Bool
  pub user_task : Option ℕ
  pub delay : Delta
  pub desired_run_time : Point
  pub scheduled_run_time : Point

-- `BindTaskRunner`, of a runner that lives or is null.
unfoldable pub bind_task_runner : Timer → Bool → Timer
bind_task_runner t lives = record t { has_runner = lives }

unfoldable pub schedule_new_task : Timer → Delta → Point → Outcome (Timer × List Act)
schedule_new_task t delay now =
    if not t.has_runner
    then ok (t, [])
    else if time_lt zero_delta delay
    then (point_plus_delta now delay >>= λ time. ok (
      record t { is_running = true; scheduled_run_time = time; desired_run_time = time },
      posted_delayed delay ∷ [],
    ))
    else ok (
      record t { is_running = true; scheduled_run_time = now; desired_run_time = now },
      posted ∷ [],
    )

-- `TimePoint::Now() + delay_`, or now if there is no delay.
unfoldable pub desired : Delta → Point → Outcome Point
desired delay now = if time_lt zero_delta delay then point_plus_delta now delay else ok now

-- A task that was posted before and comes no later than the new time is not posted again.
unfoldable pub reset : Timer → Point → Outcome (Timer × List Act)
unfolding schedule_new_task desired
reset t now =
    if time_lt t.scheduled_run_time now
    then schedule_new_task t t.delay now
    else (desired t.delay now >>= λ time.
        let t' = record t { desired_run_time = time } in
        if not (time_lt time t.scheduled_run_time)
        then ok (record t' { is_running = true }, [])
        else schedule_new_task t' t.delay now)

unfoldable pub start_internal : Timer → Delta → Point → Outcome (Timer × List Act)
unfolding reset
start_internal t delay now = reset (record t { delay = delay }) now

-- `OnScheduledTaskInvoked`, for the `RunUserTask` of any kind of timer.
unfoldable pub on_scheduled_task_invoked :
    (Timer → Point → Outcome (Timer × List Act)) → Timer → Point → Outcome (Timer × List Act)
unfolding schedule_new_task
on_scheduled_task_invoked run_user_task t now =
    if not t.is_running
    then ok (t, [])
    else if time_lt t.scheduled_run_time t.desired_run_time && time_lt now t.desired_run_time
    then (point_minus t.desired_run_time now >>= λ rest. schedule_new_task t rest now)
    else run_user_task t now
