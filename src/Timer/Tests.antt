-- ===== src/Timer/Tests.antt =====
-- Runs of timers, and instances of their theorems.
use footstone.Base.{◌≡◌, refl, true, false, [], ◌∷◌, some, ok}
use footstone.Base.Int.{pos, ◌-ℤ◌, ◌+ℤ◌}
use footstone.Time.{in_int64, point_plus_delta, int64}
use footstone.Runner.{IdleParam}
use footstone.Timer.{posted_delayed, Timer, desired, reset, on_scheduled_task_invoked}
use footstone.Timer.OneShot
use footstone.Timer.Firing.{too_early}

-- A timer that was put off from 10 to 30.
abbrev put_off : Timer
put_off = record {
  is_running = true;
  has_runner = true;
  user_task = some 7;
  delay = pos 20;
  desired_run_time = pos 30;
  scheduled_run_time = pos 10;
}

abbrev reset_once : Timer
reset_once = record put_off { desired_run_time = pos 25 }

-- `Reset` before the posted task comes puts it off, and posts nothing.
reset-put_off : reset put_off (pos 5) ≡ ok (reset_once, [])
unfolding reset desired point_plus_delta int64 ◌+ℤ◌
reset-put_off = refl

too_early_example :
    let t' = record put_off { scheduled_run_time = pos 30 } in
    (on_scheduled_task_invoked OneShot.run_user_task put_off (pos 10)
      ≡ ok (t', posted_delayed (pos 30 -ℤ pos 10) ∷ []))
    × (on_scheduled_task_invoked OneShot.run_user_task t' (pos 30)
        ≡ OneShot.run_user_task t' (pos 30))
unfolding ◌-ℤ◌ in_int64
too_early_example = too_early OneShot.run_user_task put_off (pos 10) refl refl refl refl refl refl

abbrev idle_param : IdleParam
idle_param = record { did_time_out = false; res_time = pos 3 }
