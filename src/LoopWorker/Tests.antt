-- ===== src/LoopWorker/Tests.antt =====
-- Instances of the theorems on the looper's worker.
use footstone.Base.{
  ◌+◌, ◌≡◌, refl, true, false, [], ◌∷◌, none, some, leb, ok, fault, no_return, arith,
}
use footstone.Base.Int.{pos, ◌-ℤ◌}
use footstone.Time.{zero_delta, point_minus, int64, in_int64}
use footstone.Runner.{Task}
use footstone.Scheduler.{Heap, new_worker}
use footstone.Manager.Draining.{retired}
use footstone.LoopWorker.{
  no_flags, tfd_timer_abstime, Loop, new_loop, Poll, poll_error, poll_callback, run_loop,
}
use footstone.LoopWorker.Alarm.{nanos, Fires}
use footstone.LoopWorker.Rounds.{run_loop-quiet}
use footstone.LoopWorker.Drain.{IsPlain, has_tasks, run_loop-has_tasks}

abbrev heap : Heap
heap i = record {
  id = i;
  group_id = 0;
  priority = 1;
  is_schedulable = true;
  has_sub_runner = false;
  time = zero_delta;
  worker = none;
  task_queue = [];
  idle_task_queue = [];
  delayed_task_queue = [];
}

abbrev loop : Loop
unfolding new_loop new_worker
loop = new_loop heap true 0

abbrev fires : Fires
fires no_flags set_at now spec = leb (set_at + nanos spec.it_value) now
fires tfd_timer_abstime set_at now spec = leb (nanos spec.it_value) now

abbrev failed : Poll
failed = record {
  result = poll_error;
  others = λ p. p;
  fired = false;
  effect = λ _ p. p;
  now = pos 9;
  begin = pos 9;
  end = pos 10;
}

run_loop-quiet_example :
    ((s' : Loop) × (run_loop (failed ∷ failed ∷ []) (record loop { is_exit_immediately = true })
        ≡ ok s')
      × (s'.worker.is_terminated ≡ true))
    × (run_loop (failed ∷ failed ∷ []) (record loop { is_exit_immediately = false })
        ≡ fault no_return)
unfolding loop
run_loop-quiet_example = run_loop-quiet (failed ∷ failed ∷ []) loop (refl, (refl, tt)) refl refl

abbrev event : Poll
event = record failed { result = poll_callback; fired = true }

abbrev task : Task
task = record { id = 1; unit = some 7 }

event-IsPlain : IsPlain event
unfolding point_minus int64 in_int64 ◌-ℤ◌
event-IsPlain = record {
  ready = refl;
  alone = λ p. refl;
  modest = λ next h w. refl;
  measurable = (pos 1, refl);
}

run_loop-has_tasks_example :
    (s' : Loop) × (run_loop
        (event ∷ event ∷ [])
        (record (has_tasks loop (new_worker true 0) false (task ∷ [])) {
          is_exit_immediately = false;
        })
      ≡ ok s')
    × (s'.worker ≡ retired (new_worker true 0) false [])
run_loop-has_tasks_example =
    run_loop-has_tasks (new_worker true 0) (event ∷ event ∷ []) (task ∷ []) loop false
      (event-IsPlain, (event-IsPlain, tt)) (omega arith)
