-- ===== src/Timer/Schedule.antt =====
-- Timers on a runner: at which rounds of the worker the user's closure runs.
use footstone.Base.{
  ℕ, ◌+◌, ◌%◌, true, false, List, [], ◌∷◌, none, some, ◌≡◌, refl, ap, ◌∙◌, eq→==, if◌then◌else◌,
  Outcome, ok, ◌>>=◌, Bool-cases, inl, inr,
}
use footstone.Base.Int.{ℤ, ◌+ℤ◌}
use footstone.Time.{Delta, Point, zero_delta, time_lt, in_int64, point_plus_delta}
use footstone.Runner.{
  Runner, Task, id_mod, new_task, post_delayed_task, push_delayed, notify_worker, get_next, pop_due,
  move_due, pop_front,
}
use footstone.Timer.{Act, posted_delayed, ran, Timer, schedule_new_task, on_scheduled_task_invoked}
use footstone.Timer.Repeating
use footstone.Timer.OnRunner.{System, perform, poll, run_picked, run_polls}
use footstone.Timer.Firing.{int64_fits, schedule_lem, due_lem}

-- The timer's task waits in the runner's queue for its time, and nothing else does.
abbrev pub waiting : ℕ → System → Timer → ℕ → Point → ℕ → System
waiting me s t worker time id = record s {
  timer = record t { is_running = true; desired_run_time = time; scheduled_run_time = time };
  runner = record s.runner {
    worker = some worker;
    task_queue = [];
    delayed_task_queue = (time, some (record { id = id; unit = some me })) ∷ [];
  };
}

-- The runner has nothing to do.
abbrev pub resting : System → Timer → ℕ → System
resting s t worker = record s {
  timer = t;
  runner = record s.runner { worker = some worker; task_queue = []; delayed_task_queue = [] };
}

abbrev pub timed : ℕ → ℕ → Task
timed me id = record { id = id; unit = some me }

-- A runner with one task, which waits for its time.
abbrev one_timed : Runner → Point → Task → Runner
one_timed r time task = record r { task_queue = []; delayed_task_queue = (time, some task) ∷ [] }

abbrev emptied : Runner → Runner
emptied r = record r { task_queue = []; delayed_task_queue = [] }

module _ (r : Runner) (now time : Point) (task : Task) where
  get_next-early :
      time_lt now time ≡ true → get_next (one_timed r time task) now ≡ (none, one_timed r time task)
  unfolding get_next move_due pop_due pop_front
  get_next-early early = rw early

  get_next-due :
      time_lt now time ≡ false → get_next (one_timed r time task) now ≡ (some task, emptied r)
  unfolding get_next move_due pop_due pop_front
  get_next-due due = rw due

get_next-emptied : (r : Runner) (now : Point) → get_next (emptied r) now ≡ (none, emptied r)
unfolding get_next move_due pop_due pop_front
get_next-emptied r now = refl

module _ (me : ℕ) (run_user_task : Timer → Point → Outcome (Timer × List Act)) (s : System)
    (t : Timer) (worker : ℕ) where
  pub poll-early :
      (time now : Point) (id : ℕ)
      → time_lt now time ≡ true
      → poll me run_user_task (waiting me s t worker time id) now
        ≡ ok (waiting me s t worker time id, [])
  unfolding poll run_picked
  poll-early time now id early =
      let v = waiting me s t worker time id in
      ap (run_picked me run_user_task v now) (get_next-early v.runner now time (timed me id) early)

  pub poll-resting :
      (now : Point) → poll me run_user_task (resting s t worker) now ≡ ok (resting s t worker, [])
  unfolding poll run_picked
  poll-resting now =
      let v = resting s t worker in
      ap (run_picked me run_user_task v now) (get_next-emptied v.runner now)

  pub poll-due :
      (time now : Point) (id : ℕ)
      → time_lt now time ≡ false
      → let t' = record t {
        is_running = true;
        desired_run_time = time;
        scheduled_run_time = time;
      } in
        poll me run_user_task (waiting me s t worker time id) now
        ≡ (run_user_task t' now >>= λ q. perform me q.1 (resting s q.0 worker) now)
  unfolding poll run_picked
  poll-due time now id due =
      let v = waiting me s t worker time id in
      ap (run_picked me run_user_task v now) (get_next-due v.runner now time (timed me id) due)
      ∙ ap
          (λ b.
            if b
            then (on_scheduled_task_invoked run_user_task v.timer now >>= λ q.
                perform me q.1 (resting s q.0 worker) now)
            else ok (resting s v.timer worker, me ∷ []))
          (eq→== me me refl)
      ∙ ap (λ o. o >>= λ q. perform me q.1 (resting s q.0 worker) now)
          (due_lem run_user_task v.timer now refl due)

  pub perform-posted_delayed :
      (delay time now : ℤ) (acts : List Act)
      → point_plus_delta now delay ≡ ok time
      → perform me (posted_delayed delay ∷ acts) (resting s t worker) now
        ≡ perform me acts
            (record (waiting me s t worker time s.counter) {
              counter = (s.counter + 1) % id_mod;
              timer = t;
            })
            now
  unfolding perform new_task post_delayed_task push_delayed notify_worker
  perform-posted_delayed delay time now acts e = rw e

-- A timer that was started with this closure and this delay.
abbrev pub started : ℕ → Delta → Timer → Timer
started u d t = record t { has_runner = true; user_task = some u; delay = d }

-- The delay is positive, and added to one of these times it fits in 64 bits.
abbrev pub AllFit : Delta → List Point → Type 0
AllFit d [] = time_lt zero_delta d ≡ true
AllFit d (now ∷ polls) = (in_int64 (now +ℤ d) ≡ true) × AllFit d polls

pub plus_fits : (now d : ℤ) → in_int64 (now +ℤ d) ≡ true → point_plus_delta now d ≡ ok (now +ℤ d)
unfolding point_plus_delta
plus_fits now d fits = int64_fits (now +ℤ d) fits

AllFit-later : (d : Delta) (polls : List Point) → AllFit d polls → time_lt zero_delta d ≡ true
AllFit-later d [] fit = fit
AllFit-later d (now ∷ polls) (_, fit) = AllFit-later d polls fit

-- When a repeating timer should run: at the first round that is not before its time, and then again when the
-- delay has passed since.
abbrev pub schedule : ℕ → Delta → Point → List Point → List ℕ
schedule u d time [] = []
schedule u d time (now ∷ polls) =
    if time_lt now time then schedule u d time polls else u ∷ schedule u d (now +ℤ d) polls

module _ (me u worker : ℕ) (d : Delta) (t : Timer) (later : time_lt zero_delta d ≡ true) where
  pub schedule-started :
      (t' : Timer) (now : Point)
      → t'.has_runner ≡ true
      → in_int64 (now +ℤ d) ≡ true
      → schedule_new_task t' d now
        ≡ ok (
          record t' {
            is_running = true;
            scheduled_run_time = now +ℤ d;
            desired_run_time = now +ℤ d;
          },
          posted_delayed d ∷ [],
        )
  schedule-started t' now has fits =
      schedule_lem t' d (now +ℤ d) now has later (plus_fits now d fits)

  repeating_runs :
      (t' : Timer) (now : Point)
      → in_int64 (now +ℤ d) ≡ true
      → Repeating.run_user_task (started u d t') now
        ≡ ok (
          record (started u d t') {
            is_running = true;
            scheduled_run_time = now +ℤ d;
            desired_run_time = now +ℤ d;
          },
          posted_delayed d ∷ ran u ∷ [],
        )
  unfolding Repeating.run_user_task
  repeating_runs t' now fits = rw (schedule-started (started u d t') now refl fits)

  poll-repeating :
      (s : System) (time now : Point) (id : ℕ)
      → time_lt now time ≡ false
      → in_int64 (now +ℤ d) ≡ true
      → poll me Repeating.run_user_task (waiting me s (started u d t) worker time id) now
        ≡ ok (
          waiting me
              (record s { counter = (s.counter + 1) % id_mod })
              (started u d t)
              worker
              (now +ℤ d)
              s.counter,
          u ∷ [],
        )
  unfolding perform
  poll-repeating s time now id due fits =
      let t' = record t { is_running = true; desired_run_time = time; scheduled_run_time = time } in
      poll-due me Repeating.run_user_task s (started u d t) worker time now id due
      ∙ ap (λ o. o >>= λ q. perform me q.1 (resting s q.0 worker) now) (repeating_runs t' now fits)
      ∙ perform-posted_delayed me Repeating.run_user_task s _ worker d (now +ℤ d) now (ran u ∷ [])
          (plus_fits now d fits)

  pub run_polls-repeating :
      (polls : List Point) (s : System) (time : Point) (id : ℕ)
      → AllFit d polls
      → (s' : System) × (run_polls me Repeating.run_user_task polls
            (waiting me s (started u d t) worker time id)
          ≡ ok (s', schedule u d time polls))
  unfolding run_polls
  run_polls-repeating [] s time id fit = (_, refl)
  run_polls-repeating (now ∷ polls) s time id (fits, fit) = elim (Bool-cases (time_lt now time)) [
    | inl early ↦
        let (s', rest) = run_polls-repeating polls s time id fit in
        (
          s',
          rw (
            poll-early me Repeating.run_user_task s (started u d t) worker time now id early,
            rest,
            early,
          ),
        )
    | inr due ↦
        let s1 = record s { counter = (s.counter + 1) % id_mod } in
        let (s', rest) = run_polls-repeating polls s1 (now +ℤ d) s.counter fit in
        (s', rw (poll-repeating s time now id due fits, rest, due))
  ]
