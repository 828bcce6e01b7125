-- ===== src/Timer/OnRunner.antt =====
-- A timer together with its runner: the acts of src/footstone/base_timer.cc are posts to the queues of
-- src/footstone/task_runner.cc, and the closure that is posted, here the number `me`, calls back
-- `OnScheduledTaskInvoked` of the timer, which is alive.
use footstone.Base.{
  ℕ, List, [], ◌∷◌, ◌++◌, Option, none, some, ◌==◌, if◌then◌else◌, Outcome, ok, ◌>>=◌,
}
use footstone.Time.{Delta, Point}
use footstone.Runner.{
  Runner, Task, new_task, new_idle_task, post_task, post_delayed_task, post_idle_task, get_next,
}
use footstone.Timer.{
  Act, posted, posted_delayed, posted_idle, posted_user_idle, ran, ran_idle, Timer,
  on_scheduled_task_invoked,
}

-- `counter` is the number of the next task.
pub record System : Type 0 where
  pub timer : Timer
  pub runner : Runner
  pub counter : ℕ

module _ (me : ℕ) where
  -- The posts are made, and the closures that ran come out.
  unfoldable pub perform : List Act → System → Point → Outcome (System × List ℕ)
  unfolding new_task new_idle_task post_task post_delayed_task post_idle_task
  perform [] s now = ok (s, [])
  perform (posted ∷ acts) s now = do
    let task = new_task s.counter (some me)
    p ← post_task s.runner (some task.0)
    perform acts (record s { runner = p.0; counter = task.1 }) now
  perform (posted_delayed delay ∷ acts) s now = do
    let task = new_task s.counter (some me)
    p ← post_delayed_task s.runner (some task.0) delay now
    perform acts (record s { runner = p.0; counter = task.1 }) now
  perform (posted_idle ∷ acts) s now = do
    let task = new_idle_task s.counter (some me)
    p ← post_idle_task s.runner (some task.0)
    perform acts (record s { runner = p.0; counter = task.1 }) now
  perform (posted_user_idle u ∷ acts) s now = do
    let task = new_idle_task s.counter (some u)
    p ← post_idle_task s.runner (some task.0)
    perform acts (record s { runner = p.0; counter = task.1 }) now
  perform (ran u ∷ acts) s now = do p ← perform acts s now; ok (p.0, u ∷ p.1)
  perform (ran_idle u param ∷ acts) s now = do p ← perform acts s now; ok (p.0, u ∷ p.1)

  -- A call of `Start`, at `now`.
  unfoldable pub start_on :
      (Timer → Option ℕ → Delta → Point → Outcome (Timer × List Act))
      → System
      → Option ℕ
      → Delta
      → Point
      → Outcome (System × List ℕ)
  unfolding perform
  start_on start s task delay now = do
    p ← start s.timer task delay now
    perform p.1 (record s { timer = p.0 }) now

  -- The task runs that the runner has given out, with the runner that is left.
  unfoldable pub run_picked :
      (Timer → Point → Outcome (Timer × List Act))
      → System
      → Point
      → Option Task × Runner
      → Outcome (System × List ℕ)
  unfolding on_scheduled_task_invoked perform
  run_picked run_user_task s now (none, r) = ok (record s { runner = r }, [])
  run_picked run_user_task s now (some task, r) =
      let s' = record s { runner = r } in
      elim task.unit [
        | none ↦ ok (s', [])
        | some u ↦
            if u == me
            then (on_scheduled_task_invoked run_user_task s'.timer now >>= λ q.
                perform q.1 (record s' { timer = q.0 }) now)
            else ok (s', u ∷ [])
      ]

  -- The worker asks the runner for a task at `now`, and runs it.
  unfoldable pub poll :
      (Timer → Point → Outcome (Timer × List Act)) → System → Point → Outcome (System × List ℕ)
  unfolding get_next run_picked
  poll run_user_task s now = run_picked run_user_task s now (get_next s.runner now)

  -- A list of such rounds.
  unfoldable pub run_polls :
      (Timer → Point → Outcome (Timer × List Act)) → List Point → System → Outcome (System × List ℕ)
  unfolding poll
  run_polls run_user_task [] s = ok (s, [])
  run_polls run_user_task (now ∷ polls) s = do
    p ← poll run_user_task s now
    q ← run_polls run_user_task polls p.0
    ok (q.0, p.1 ++ q.1)
