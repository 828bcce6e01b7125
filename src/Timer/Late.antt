-- ===== src/Timer/Late.antt =====
-- `Reset` of a timer whose time has passed while its task still waits in the runner's queue.
use footstone.Base.{
  ℕ, ◌+◌, ◌%◌, true, false, List, [], ◌∷◌, some, none, ◌≡◌, refl, ap, ◌∙◌, Outcome, ok, ◌>>=◌,
  if◌then◌else◌, eq→==, arith,
}
use footstone.Base.Int.{ℤ, ◌+ℤ◌, +ℤ_parts}
use footstone.Base.{ltb→lt, le→ltb_false}
use footstone.Time.{Delta, Point, zero_delta, time_lt, in_int64}
use footstone.Runner.{
  Runner, Task, id_mod, new_task, post_delayed_task, push_delayed, notify_worker, get_next, pop_due,
  move_due, pop_front,
}
use footstone.Timer.{Act, Timer, schedule_new_task, reset, on_scheduled_task_invoked}
use footstone.Timer.OneShot
use footstone.Timer.OnRunner.{System, perform, poll, run_picked}
use footstone.Timer.Firing.{one_shot_runs, schedule_lem}
use footstone.Timer.Schedule.{waiting, started, timed, plus_fits}

reset-past :
    (t : Timer) (now : Point)
    → time_lt t.scheduled_run_time now ≡ true
    → reset t now ≡ schedule_new_task t t.delay now
unfolding reset
reset-past t now past = rw past

still_due :
    (time now p : ℤ) → time_lt time now ≡ true → time_lt p now ≡ false → time_lt p time ≡ false
still_due time now p past after = ground arith

-- Only a scheduled time before the desired one puts a task off.
stale_lem :
    (run_user_task : Timer → Point → Outcome (Timer × List Act)) (t : Timer) (now : Point)
    → t.is_running ≡ true
    → time_lt t.scheduled_run_time t.desired_run_time ≡ false
    → on_scheduled_task_invoked run_user_task t now ≡ run_user_task t now
unfolding on_scheduled_task_invoked
stale_lem run_user_task t now running e = rw (on_scheduled_task_invoked, running, e) refl

not_before :
    (a b d : ℤ) → time_lt a b ≡ true → time_lt zero_delta d ≡ true → time_lt (b +ℤ d) a ≡ false
not_before a b d h k = le→ltb_false _ _ (omega (arith, +ℤ_parts b d, ltb→lt _ _ h, ltb→lt _ _ k))

pop_due-first :
    (p time next : Point) (x y : Task)
    → time_lt p time ≡ false
    → pop_due p ((time, some x) ∷ (next, some y) ∷ []) ≡ (some x, (next, some y) ∷ [])
unfolding pop_due
pop_due-first p time next x y due = rw due

pop_due-none :
    (p next : Point) (y : Task)
    → time_lt p next ≡ true
    → pop_due p ((next, some y) ∷ []) ≡ (none, (next, some y) ∷ [])
unfolding pop_due
pop_due-none p next y early = rw early

move_due-one :
    (p next : Point) (x y : Task)
    → time_lt p next ≡ true
    → move_due 2 p (some x) [] ((next, some y) ∷ []) ≡ (some x ∷ [], (next, some y) ∷ [])
unfolding move_due
move_due-one p next x y early =
    ap (λ q. move_due 1 p q.0 (some x ∷ []) q.1) (pop_due-none p next y early)

-- A runner with two tasks, of which the first is due.
get_next-two :
    (r : Runner) (p time next : Point) (x y : Task)
    → time_lt p time ≡ false
    → time_lt p next ≡ true
    → get_next
        (record r { task_queue = []; delayed_task_queue = (time, some x) ∷ (next, some y) ∷ [] })
        p
      ≡ (some x, record r { task_queue = []; delayed_task_queue = (next, some y) ∷ [] })
unfolding get_next pop_front
get_next-two r p time next x y due early =
    rw (pop_due-first p time next x y due, move_due-one p next x y early)

module _ (me u worker : ℕ) (d : Delta) (t : Timer) (s : System) (time now : Point) (id : ℕ) where
  -- Two tasks of the timer wait.
  abbrev pub twice : System
  twice = record s {
    timer = record (started u d t) {
      is_running = true;
      desired_run_time = now +ℤ d;
      scheduled_run_time = now +ℤ d;
    };
    runner = record s.runner {
      worker = some worker;
      task_queue = [];
      delayed_task_queue = (time, some (timed me id)) ∷ (now +ℤ d, some (timed me s.counter)) ∷ [];
    };
    counter = (s.counter + 1) % id_mod;
  }

  -- The system without the first of them.
  abbrev left : System
  left = record twice {
    runner = record twice.runner {
      delayed_task_queue = (now +ℤ d, some (timed me s.counter)) ∷ [];
    };
  }

  reset-twice :
      time_lt time now ≡ true
      → time_lt zero_delta d ≡ true
      → in_int64 (now +ℤ d) ≡ true
      → (reset (waiting me s (started u d t) worker time id).timer now >>= λ p.
          perform me p.1 (record (waiting me s (started u d t) worker time id) { timer = p.0 }) now)
        ≡ ok (twice, [])
  unfolding perform new_task post_delayed_task push_delayed notify_worker
  reset-twice past later fits =
      let v = waiting me s (started u d t) worker time id in
      ap (λ o. o >>= λ p. perform me p.1 (record v { timer = p.0 }) now)
        (reset-past v.timer now past
          ∙ schedule_lem v.timer d (now +ℤ d) now refl later (plus_fits now d fits))
      ∙ rw (plus_fits now d fits, not_before time now d past later)

  poll-twice :
      (p : Point)
      → time_lt p time ≡ false
      → time_lt p (now +ℤ d) ≡ true
      → (s' : System) × (poll me OneShot.run_user_task twice p ≡ ok (s', u ∷ []))
  unfolding poll run_picked perform
  poll-twice p due early = (
    _,
    ap (run_picked me OneShot.run_user_task twice p)
          (get_next-two twice.runner p time (now +ℤ d) (timed me id) (timed me s.counter) due early)
        ∙ ap
            (λ b.
              if b
              then (on_scheduled_task_invoked OneShot.run_user_task twice.timer p >>= λ q.
                  perform me q.1 (record left { timer = q.0 }) p)
              else ok (left, me ∷ []))
            (eq→== me me refl)
        ∙ ap (λ o. o >>= λ q. perform me q.1 (record left { timer = q.0 }) p)
            (stale_lem OneShot.run_user_task twice.timer p refl (le→ltb_false _ _ (omega arith))
              ∙ one_shot_runs twice.timer u p refl),
  )

  -- A one-shot timer with a positive delay, whose time has passed before its task was run, and which is then
  -- reset, posts another task for the delay from then on, if that fits in 64 bits; but the task that was left
  -- runs the closure at a round after the reset and before that delay has passed, although the timer then wants
  -- to run at a later time.
  pub reset-late :
      (p : Point)
      → time_lt time now ≡ true
      → time_lt zero_delta d ≡ true
      → in_int64 (now +ℤ d) ≡ true
      → time_lt p now ≡ false
      → time_lt p (now +ℤ d) ≡ true
      → (reset (waiting me s (started u d t) worker time id).timer now >>= λ q.
            perform me q.1
              (record (waiting me s (started u d t) worker time id) { timer = q.0 })
              now)
          ≡ ok (twice, [])
        × (time_lt p twice.timer.desired_run_time ≡ true)
        × ((s' : System) × (poll me OneShot.run_user_task twice p ≡ ok (s', u ∷ [])))
  reset-late p past later fits after early =
      (reset-twice past later fits, early, poll-twice p (still_due time now p past after) early)
