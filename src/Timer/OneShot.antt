-- ===== src/Timer/OneShot.antt =====
-- src/footstone/one_shot_timer.cc: the virtual functions and the `Start` of this kind of timer.
use footstone.Base.{
  ℕ, Bool, false, not, ◌||◌, List, [], ◌∷◌, Option, none, Outcome, ok, null_pointer, failed_check,
  or_fault, require, ◌>>=◌,
}
use footstone.Time.{Delta, Point}
use footstone.Timer.{Act, ran, Timer, start_internal}

-- `Stop`, with `OnStop`
unfoldable pub stop : Timer → Timer
stop t = record t { is_running = false; user_task = none }

unfoldable pub start : Timer → Option ℕ → Delta → Point → Outcome (Timer × List Act)
unfolding start_internal
start t task delay now = start_internal (record t { user_task = task }) delay now

unfoldable pub run_user_task : Timer → Point → Outcome (Timer × List Act)
unfolding stop
run_user_task t now = do
  u ← or_fault null_pointer t.user_task
  ok (stop (record t { user_task = none }), ran u ∷ [])

-- `debug` says whether the build checks `TDF_BASE_DCHECK`.
unfoldable pub fire_now : Bool → Timer → Point → Outcome (Timer × List Act)
unfolding run_user_task
fire_now debug t now = do _ ← require (not debug || t.is_running) failed_check; run_user_task t now
