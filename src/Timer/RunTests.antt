-- ===== src/Timer/RunTests.antt =====
-- Instances of the theorems on timers and their runner.
use footstone.Base.{
  ◌≡◌, refl, true, false, not, List, [], ◌∷◌, none, some, ok, ◌>>=◌, if◌then◌else◌,
}
use footstone.Base.Int.{pos, ◌+ℤ◌}
use footstone.Time.{Point, time_lt, in_int64, zero_delta}
use footstone.Timer.{Timer, reset}
use footstone.Timer.OneShot
use footstone.Timer.Repeating
use footstone.Timer.OnRunner.{System, perform, start_on, poll, run_polls}
use footstone.Timer.Schedule.{waiting, resting, started, schedule}
use footstone.Timer.Runs.{any_due, one_shot-start, repeating-start}
use footstone.Timer.Late.{twice, reset-late}

abbrev old : Timer
old = record {
  is_running = false;
  has_runner = true;
  user_task = none;
  delay = zero_delta;
  desired_run_time = zero_delta;
  scheduled_run_time = zero_delta;
}

abbrev system : System
system = record {
  timer = old;
  runner = record {
    id = 0;
    group_id = 0;
    priority = 1;
    is_schedulable = true;
    has_sub_runner = false;
    time = zero_delta;
    worker = none;
    task_queue = [];
    idle_task_queue = [];
    delayed_task_queue = [];
  };
  counter = 0;
}

abbrev rounds : List Point
rounds = pos 22 ∷ pos 25 ∷ pos 28 ∷ pos 31 ∷ []

-- 25 and 31
twice_in_time : schedule 7 (pos 5) (pos 25) rounds ≡ 7 ∷ 7 ∷ []
unfolding ◌+ℤ◌
twice_in_time = refl

one_shot-start_example :
    (s' : System) × ((start_on 1 OneShot.start (resting system old 3) (some 7) (pos 5) (pos 20)
        >>= λ p. run_polls 1 OneShot.run_user_task rounds p.0)
      ≡ ok (s', if any_due (pos 20 +ℤ pos 5) rounds then 7 ∷ [] else []))
    × (s'.timer.is_running ≡ not (any_due (pos 20 +ℤ pos 5) rounds))
unfolding in_int64 ◌+ℤ◌
one_shot-start_example = one_shot-start 1 7 3 (pos 5) old refl system (pos 20) rounds refl refl

repeating-start_example :
    (s' : System) × ((start_on 1 Repeating.start (resting system old 3) (some 7) (pos 5) (pos 20)
        >>= λ p. run_polls 1 Repeating.run_user_task rounds p.0)
      ≡ ok (s', schedule 7 (pos 5) (pos 20 +ℤ pos 5) rounds))
unfolding in_int64 ◌+ℤ◌
repeating-start_example =
    repeating-start 1 7 3 (pos 5) old refl system (pos 20) rounds refl refl
      (refl, (refl, (refl, (refl, refl))))

reset-late_example :
    ((reset (waiting 1 system (started 7 (pos 5) old) 3 (pos 10) 0).timer (pos 20) >>= λ q.
    perform 1 q.1
      (record (waiting 1 system (started 7 (pos 5) old) 3 (pos 10) 0) { timer = q.0 })
      (pos 20))
      ≡ ok (twice 1 7 3 (pos 5) old system (pos 10) (pos 20) 0, []))
    × (time_lt (pos 21) (twice 1 7 3 (pos 5) old system (pos 10) (pos 20) 0).timer.desired_run_time
        ≡ true)
    × ((s' : System) × (poll 1 OneShot.run_user_task
            (twice 1 7 3 (pos 5) old system (pos 10) (pos 20) 0)
            (pos 21)
          ≡ ok (s', 7 ∷ [])))
unfolding in_int64 ◌+ℤ◌
reset-late_example =
    reset-late 1 7 3 (pos 5) old system (pos 10) (pos 20) 0 (pos 21) refl refl refl refl refl
