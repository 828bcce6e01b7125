-- ===== src/Timer/Firing.antt =====
-- When the timers run what they were given.
use footstone.Base.{
  ℕ, ◌≡◌, refl, sym, ap, lt→ltb, ltb→lt, le→ltb_false, ◌∙◌, true, false, List, [], ◌∷◌, none, some,
  Outcome, ok, arith, Bool-cases, inl, inr,
}
use footstone.Base.Int.{ℤ, ◌+ℤ◌, ◌-ℤ◌, -ℤ_parts, int_laws}
use footstone.Time.{Point, zero_delta, time_lt, point_plus_delta, point_minus, int64, in_int64}
use footstone.Runner.{IdleParam}
use footstone.Timer.OneShot
use footstone.Timer.Idle
use footstone.Timer.{
  Act, posted_delayed, ran, ran_idle, Timer, schedule_new_task, on_scheduled_task_invoked,
}

pub due_lem :
    (run_user_task : Timer → Point → Outcome (Timer × List Act)) (t : Timer) (now : Point)
    → t.is_running ≡ true
    → time_lt now t.desired_run_time ≡ false
    → on_scheduled_task_invoked run_user_task t now ≡ run_user_task t now
unfolding on_scheduled_task_invoked
due_lem run_user_task t now running due =
    elim (Bool-cases (time_lt t.scheduled_run_time t.desired_run_time)) [
      | inl e ↦ rw (on_scheduled_task_invoked, running, e, due) refl
      | inr e ↦ rw (on_scheduled_task_invoked, running, e) refl
    ]

stopped_lem :
    (run_user_task : Timer → Point → Outcome (Timer × List Act)) (t : Timer) (now : Point)
    → t.is_running ≡ false
    → on_scheduled_task_invoked run_user_task t now ≡ ok (t, [])
unfolding on_scheduled_task_invoked
stopped_lem run_user_task t now e = ground arith

pub one_shot_runs :
    (t : Timer) (u : ℕ) (now : Point)
    → t.user_task ≡ some u
    → OneShot.run_user_task t now ≡ ok (OneShot.stop (record t { user_task = none }), ran u ∷ [])
unfolding OneShot.run_user_task
one_shot_runs t u now e = ground arith

idle_runs :
    (t : Timer) (u : ℕ) (now : Point)
    → t.user_task ≡ some u
    → Idle.run_user_task t now
      ≡ ok (Idle.stop t, ran_idle u (record { did_time_out = true; res_time = zero_delta }) ∷ [])
unfolding Idle.run_user_task
idle_runs t u now e = ground arith

idle_posted :
    (t : Timer) (u : ℕ) (param : IdleParam)
    → t.user_task ≡ some u
    → Idle.run_posted_idle t param ≡ ran_idle u param ∷ []
unfolding Idle.run_posted_idle
idle_posted t u param e = ground arith

back_to : (a b : ℤ) → a +ℤ (b -ℤ a) ≡ b
back_to a b = omega int_laws

positive : (a b : ℤ) → time_lt a b ≡ true → time_lt zero_delta (b -ℤ a) ≡ true
positive a b e = lt→ltb _ _ (omega (arith, -ℤ_parts b a, ltb→lt _ _ e))

pub int64_fits : (n : ℤ) → in_int64 n ≡ true → int64 n ≡ ok n
unfolding int64
int64_fits n e = rw e refl

pub schedule_lem :
    (t : Timer) (delay time : ℤ) (now : Point)
    → t.has_runner ≡ true
    → time_lt zero_delta delay ≡ true
    → point_plus_delta now delay ≡ ok time
    → schedule_new_task t delay now
      ≡ ok (
        record t { is_running = true; scheduled_run_time = time; desired_run_time = time },
        posted_delayed delay ∷ [],
      )
unfolding schedule_new_task
schedule_lem t delay time now has later e = rw (schedule_new_task, has, later, e) refl

put_off_lem :
    (run_user_task : Timer → Point → Outcome (Timer × List Act)) (t : Timer) (now : Point)
    (rest : ℤ)
    → t.is_running ≡ true
    → time_lt t.scheduled_run_time t.desired_run_time ≡ true
    → time_lt now t.desired_run_time ≡ true
    → point_minus t.desired_run_time now ≡ ok rest
    → on_scheduled_task_invoked run_user_task t now ≡ schedule_new_task t rest now
unfolding on_scheduled_task_invoked
put_off_lem run_user_task t now rest running put_off early e =
    rw (on_scheduled_task_invoked, running, put_off, early, e) refl

-- A running one-shot timer that is due and has a task runs it once and stops: a task that was posted for it
-- and comes later does nothing.
one_shot_once :
    (t : Timer) (u : ℕ) (now later : Point)
    → t.is_running ≡ true
    → t.user_task ≡ some u
    → time_lt now t.desired_run_time ≡ false
    → (t' : Timer) × (on_scheduled_task_invoked OneShot.run_user_task t now ≡ ok (t', ran u ∷ []))
      × (t'.is_running ≡ false)
      × (on_scheduled_task_invoked OneShot.run_user_task t' later ≡ ok (t', []))
unfolding OneShot.stop
one_shot_once t u now later running has due = (
  OneShot.stop (record t { user_task = none }),
  due_lem OneShot.run_user_task t now running due ∙ one_shot_runs t u now has,
  refl,
  stopped_lem OneShot.run_user_task (OneShot.stop (record t { user_task = none })) later refl,
)

-- A task that comes before the desired time, which `Reset` has put behind the scheduled one, posts another
-- one for the time that is left, if the runner lives and the times fit in 64 bits; that one, when it comes,
-- finds the timer due, for every kind of timer.
pub too_early :
    (run_user_task : Timer → Point → Outcome (Timer × List Act)) (t : Timer) (now : Point)
    → t.is_running ≡ true
    → t.has_runner ≡ true
    → time_lt t.scheduled_run_time t.desired_run_time ≡ true
    → time_lt now t.desired_run_time ≡ true
    → in_int64 t.desired_run_time ≡ true
    → in_int64 (t.desired_run_time -ℤ now) ≡ true
    → let t' = record t { scheduled_run_time = t.desired_run_time } in
      (on_scheduled_task_invoked run_user_task t now
        ≡ ok (t', posted_delayed (t.desired_run_time -ℤ now) ∷ []))
      × (on_scheduled_task_invoked run_user_task t' t.desired_run_time
          ≡ run_user_task t' t.desired_run_time)
unfolding point_minus point_plus_delta
too_early run_user_task t now running has put_off early fits fits' = (
  put_off_lem run_user_task t now (t.desired_run_time -ℤ now) running put_off early
        (int64_fits (t.desired_run_time -ℤ now) fits')
      ∙ schedule_lem t (t.desired_run_time -ℤ now) t.desired_run_time now has
          (positive now t.desired_run_time early)
          (ap int64 (back_to now t.desired_run_time) ∙ int64_fits t.desired_run_time fits)
      ∙ ap
          (λ b. ok (
            record t { is_running = b; scheduled_run_time = t.desired_run_time },
            posted_delayed (t.desired_run_time -ℤ now) ∷ [],
          ))
          (sym running),
  due_lem run_user_task (record t { scheduled_run_time = t.desired_run_time }) t.desired_run_time
      running (le→ltb_false _ _ (omega arith)),
)

-- While an `IdleTimer` runs, its posted idle task runs the user's task and changes nothing of the timer; so
-- the time-out, when the timer is due, runs it again.
idle_twice :
    (t : Timer) (u : ℕ) (param : IdleParam) (now : Point)
    → t.is_running ≡ true
    → t.user_task ≡ some u
    → time_lt now t.desired_run_time ≡ false
    → (Idle.run_posted_idle t param ≡ ran_idle u param ∷ [])
      × (on_scheduled_task_invoked Idle.run_user_task t now
          ≡ ok (
            Idle.stop t,
            ran_idle u (record { did_time_out = true; res_time = zero_delta }) ∷ [],
          ))
idle_twice t u param now running has due = (
  idle_posted t u param has,
  due_lem Idle.run_user_task t now running due ∙ idle_runs t u now has,
)
