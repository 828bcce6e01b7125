-- ===== src/Timer/Repeating.antt =====
-- src/footstone/repeating_timer.cc: the virtual functions and the `Start` of this kind of timer.
use footstone.Base.{
  ℕ, false, List, [], ◌∷◌, ◌++◌, Option, Outcome, ok, null_pointer, or_fault, ◌>>=◌,
}
use footstone.Time.{Delta, Point}
use footstone.Timer.{Act, ran, Timer, schedule_new_task, start_internal}

unfoldable pub stop : Timer → Timer
stop t = record t { is_running = false }

unfoldable pub start : Timer → Option ℕ → Delta → Point → Outcome (Timer × List Act)
unfolding start_internal
start t task delay now = start_internal (record t { user_task = task }) delay now

unfoldable pub run_user_task : Timer → Point → Outcome (Timer × List Act)
unfolding schedule_new_task
run_user_task t now = do
  p ← schedule_new_task t t.delay now
  u ← or_fault null_pointer t.user_task
  ok (p.0, p.1 ++ (ran u ∷ []))
