-- ===== src/Timer/Runs.antt =====
-- Timers on a runner, from `Start` on.
use footstone.Base.{
  ℕ, ◌+◌, ◌%◌, Bool, true, false, not, ◌||◌, List, [], ◌∷◌, ◌++◌, none, some, ◌≡◌, refl, ap, ◌∙◌,
  if◌then◌else◌, Outcome, ok, fault, ◌>>=◌, Bool-cases, inl, inr,
}
use footstone.Base.Int.{◌+ℤ◌}
use footstone.Time.{Delta, Point, zero_delta, time_lt, in_int64}
use footstone.Runner.{id_mod}
use footstone.Timer.{Act, Timer, schedule_new_task, start_internal, reset}
use footstone.Timer.OneShot
use footstone.Timer.Repeating
use footstone.Timer.OnRunner.{System, perform, start_on, poll, run_polls}
use footstone.Timer.Firing.{one_shot_runs}
use footstone.Timer.Schedule.{
  waiting, resting, started, schedule, AllFit, schedule-started, perform-posted_delayed,
  poll-resting, poll-early, poll-due, run_polls-repeating, plus_fits,
}

-- Some round is not before the time.
abbrev pub any_due : Point → List Point → Bool
any_due time [] = false
any_due time (now ∷ polls) = not (time_lt now time) || any_due time polls

nothing_more : (m : Outcome (System × List ℕ)) → (m >>= λ q. ok (q.0, [] ++ q.1)) ≡ m
nothing_more (ok q) = refl
nothing_more (fault e) = refl

start_internal-past :
    (t : Timer) (d : Delta) (now : Point)
    → time_lt t.scheduled_run_time now ≡ true
    → start_internal t d now ≡ schedule_new_task (record t { delay = d }) d now
unfolding start_internal reset
start_internal-past t d now past = rw past

module _ (me u worker : ℕ) (d : Delta) (t : Timer) (later : time_lt zero_delta d ≡ true) where
  -- The timer before a start, and the system when its task waits.
  abbrev pub fresh : Timer
  fresh = record t { has_runner = true }

  abbrev begun : System → Point → System
  begun s now =
      waiting me (record s { counter = (s.counter + 1) % id_mod }) (started u d t) worker (now +ℤ d)
        s.counter

  start-begun :
      (s : System) (now : Point)
      → time_lt t.scheduled_run_time now ≡ true
      → in_int64 (now +ℤ d) ≡ true
      → (start_internal (record fresh { user_task = some u }) d now >>= λ p.
          perform me p.1 (resting s p.0 worker) now)
        ≡ ok (begun s now, [])
  unfolding perform
  start-begun s now past fits =
      ap (λ o. o >>= λ p. perform me p.1 (resting s p.0 worker) now)
        (start_internal-past (record fresh { user_task = some u }) d now past
          ∙ schedule-started me u worker d t later (started u d t) now refl fits)
      ∙ perform-posted_delayed me Repeating.run_user_task s _ worker d (now +ℤ d) now []
          (plus_fits now d fits)

  abbrev stopped : Point → Timer
  stopped time = record (started u d t) {
    is_running = false;
    user_task = none;
    desired_run_time = time;
    scheduled_run_time = time;
  }

  poll-one_shot :
      (s : System) (time now : Point) (id : ℕ)
      → time_lt now time ≡ false
      → poll me OneShot.run_user_task (waiting me s (started u d t) worker time id) now
        ≡ ok (resting s (stopped time) worker, u ∷ [])
  unfolding perform OneShot.stop
  poll-one_shot s time now id due =
      let t' = record (started u d t) {
        is_running = true;
        desired_run_time = time;
        scheduled_run_time = time;
      } in
      poll-due me OneShot.run_user_task s (started u d t) worker time now id due
      ∙ ap (λ o. o >>= λ q. perform me q.1 (resting s q.0 worker) now) (one_shot_runs t' u now refl)

  run_polls-resting :
      (run_user_task : Timer → Point → Outcome (Timer × List Act)) (t' : Timer) (polls : List Point)
      (s : System)
      → run_polls me run_user_task polls (resting s t' worker) ≡ ok (resting s t' worker, [])
  unfolding run_polls
  run_polls-resting run_user_task t' [] s = refl
  run_polls-resting run_user_task t' (now ∷ polls) s =
      rw (poll-resting me run_user_task s t' worker now, run_polls-resting run_user_task t' polls s)

  run_polls-one_shot :
      (polls : List Point) (s : System) (time : Point) (id : ℕ)
      → run_polls me OneShot.run_user_task polls (waiting me s (started u d t) worker time id) ≡ (
          if any_due time polls
          then ok (resting s (stopped time) worker, u ∷ [])
          else ok (waiting me s (started u d t) worker time id, []))
  unfolding run_polls
  run_polls-one_shot [] s time id = refl
  run_polls-one_shot (now ∷ polls) s time id = elim (Bool-cases (time_lt now time)) [
    | inl early ↦
        rw (poll-early me OneShot.run_user_task s (started u d t) worker time now id early, early)
          (nothing_more _ ∙ run_polls-one_shot polls s time id)
    | inr due ↦ rw (
      poll-one_shot s time now id due,
      run_polls-resting OneShot.run_user_task (stopped time) polls s,
      due,
    )
  ]

  -- A one-shot timer that is started with a positive delay, on a runner with no other task, when its last time
  -- has passed, runs the closure at the first round of the worker that is not before the start and the delay,
  -- and never again; it is running until then, and stopped from then on. The start and the delay together fit
  -- in 64 bits.
  pub one_shot-start :
      (s : System) (now : Point) (polls : List Point)
      → time_lt t.scheduled_run_time now ≡ true
      → in_int64 (now +ℤ d) ≡ true
      → (s' : System) × ((start_on me OneShot.start (resting s fresh worker) (some u) d now >>= λ p.
            run_polls me OneShot.run_user_task polls p.0)
          ≡ ok (s', if any_due (now +ℤ d) polls then u ∷ [] else []))
        × (s'.timer.is_running ≡ not (any_due (now +ℤ d) polls))
  unfolding start_on OneShot.start
  one_shot-start s now polls past fits = elim (Bool-cases (any_due (now +ℤ d) polls)) [
    | inl due ↦ (
      resting (record s { counter = (s.counter + 1) % id_mod }) (stopped (now +ℤ d)) worker,
      rw (start-begun s now past fits, run_polls-one_shot polls _ (now +ℤ d) s.counter, due),
      rw due,
    )
    | inr early ↦ (
      begun s now,
      rw (start-begun s now past fits, run_polls-one_shot polls _ (now +ℤ d) s.counter, early),
      rw early,
    )
  ]

  -- A repeating timer that is started in the same way runs the closure exactly at the rounds of its schedule,
  -- if the delay, added to the start or to the time of any round, fits in 64 bits.
  pub repeating-start :
      (s : System) (now : Point) (polls : List Point)
      → time_lt t.scheduled_run_time now ≡ true
      → in_int64 (now +ℤ d) ≡ true
      → AllFit d polls
      → (s' : System) × ((start_on me Repeating.start (resting s fresh worker) (some u) d now
            >>= λ p. run_polls me Repeating.run_user_task polls p.0)
          ≡ ok (s', schedule u d (now +ℤ d) polls))
  unfolding start_on Repeating.start
  repeating-start s now polls past fits fit =
      let (s', runs) =
        run_polls-repeating me u worker d t later polls
          (record s { counter = (s.counter + 1) % id_mod }) (now +ℤ d) s.counter fit in
      (s', rw (start-begun s now past fits) runs)
