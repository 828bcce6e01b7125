-- ===== src/Timer/Idle.antt =====
-- src/footstone/idle_timer.cc: the virtual functions and the `Start` of this kind of timer.
use footstone.Base.{
  ℕ, true, false, not, List, [], ◌∷◌, none, some, if◌then◌else◌, Outcome, ok, fault, null_pointer,
  ◌>>=◌,
}
use footstone.Time.{Delta, Point, zero_delta}
use footstone.Runner.{IdleParam}
use footstone.Timer.{Act, posted_idle, posted_user_idle, ran_idle, Timer, start_internal}

unfoldable pub stop : Timer → Timer
stop t = record t { is_running = false; user_task = none }

-- `Start` with a time-out.
unfoldable pub start : Timer → ℕ → Delta → Point → Outcome (Timer × List Act)
unfolding start_internal
start t unit timeout now =
    if not t.has_runner
    then fault null_pointer
    else (start_internal (record t { user_task = some unit }) timeout now >>= λ p.
        ok (p.0, posted_idle ∷ p.1))

-- `Start` without a time-out: the user's task is posted itself.
unfoldable pub start_untimed : Timer → ℕ → Outcome (Timer × List Act)
start_untimed t unit =
    if not t.has_runner
    then fault null_pointer
    else ok (record t { user_task = some unit }, posted_user_idle unit ∷ [])

-- The idle task that `Start` with a time-out posts: it holds a weak pointer to `idle_task_`.
unfoldable pub run_posted_idle : Timer → IdleParam → List Act
run_posted_idle t param = elim t.user_task [ none ↦ [] | some unit ↦ ran_idle unit param ∷ [] ]

unfoldable pub run_user_task : Timer → Point → Outcome (Timer × List Act)
unfolding stop
run_user_task t now = elim t.user_task [
  | none ↦ ok (t, [])
  | some unit ↦
      ok (stop t, ran_idle unit (record { did_time_out = true; res_time = zero_delta }) ∷ [])
]
