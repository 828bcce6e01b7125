-- ===== src/LoopWorker/Rounds.antt =====
-- When `RunLoop` of the looper's worker returns.
use footstone.Base.{
  ◌≡◌, refl, sym, ap, ◌∙◌, Bool, true, false, not, ◌||◌, List, [], ◌∷◌, ok, fault, no_return, ◌>>=◌,
  Bool-cases, inl, inr, if◌then◌else◌, ◌==◌,
}
use footstone.Scheduler.{Heap, Worker}
use footstone.LoopWorker.{
  Loop, Poll, PollResult, poll_wake, poll_callback, poll_timeout, poll_error, poll_once, after_poll,
  set_worker, notify, terminate_worker, run_until_terminated, run_until_idle, run_loop,
}

-- Polls in which the descriptor is not ready.
abbrev pub AllQuiet : List Poll → Type 0
AllQuiet [] = Unit {0}
AllQuiet (poll ∷ polls) = (poll.fired ≡ false) × AllQuiet polls

set_worker-pending :
    (s : Loop) (heap : Heap) (w : Worker)
    → (set_worker s heap w).has_task_pending ≡ s.has_task_pending
unfolding set_worker notify
set_worker-pending s heap w = elim (Bool-cases (w.notified == s.worker.notified)) [
  | inl e ↦ rw e
  | inr e ↦ rw e
]

abbrev ends_loop : PollResult → Bool
ends_loop poll_timeout = true
ends_loop poll_error = true
ends_loop poll_wake = false
ends_loop poll_callback = false

||_true : (b : Bool) → (b || true) ≡ true
||_true true = refl
||_true false = refl

||_false : (b : Bool) → (b || false) ≡ b
||_false true = refl
||_false false = refl

module _ (s : Loop) where
  after_poll-pending : (r : PollResult) → (after_poll r s).has_task_pending ≡ s.has_task_pending
  unfolding after_poll terminate_worker
  after_poll-pending poll_timeout = refl
  after_poll-pending poll_error = refl
  after_poll-pending poll_wake = refl
  after_poll-pending poll_callback = refl

  after_poll-ends :
      (r : PollResult) → ends_loop r ≡ true → (after_poll r s).worker.is_terminated ≡ true
  unfolding after_poll terminate_worker
  after_poll-ends poll_timeout e = refl
  after_poll-ends poll_error e = refl
  after_poll-ends poll_wake e = cc
  after_poll-ends poll_callback e = cc

-- The state after a poll in which the descriptor is not ready.
quiet_poll : Poll → Loop → Loop
unfolding set_worker after_poll
quiet_poll poll s =
    let p = poll.others (s.heap, s.worker) in after_poll poll.result (set_worker s p.0 p.1)

module _ (poll : Poll) (s : Loop) where
  poll_once-quiet : poll.fired ≡ false → poll_once poll s ≡ ok (quiet_poll poll s)
  unfolding poll_once quiet_poll
  poll_once-quiet quiet = rw quiet

  quiet_poll-pending : (quiet_poll poll s).has_task_pending ≡ s.has_task_pending
  unfolding quiet_poll
  quiet_poll-pending =
      let p = poll.others (s.heap, s.worker) in
      after_poll-pending (set_worker s p.0 p.1) poll.result ∙ set_worker-pending s p.0 p.1

  quiet_poll-ends : ends_loop poll.result ≡ true → (quiet_poll poll s).worker.is_terminated ≡ true
  unfolding quiet_poll
  quiet_poll-ends e =
      let p = poll.others (s.heap, s.worker) in after_poll-ends (set_worker s p.0 p.1) poll.result e

-- A round of each loop, by its condition.
module _ (poll : Poll) (polls : List Poll) (s : Loop) where
  run_until_idle-step :
      (not s.worker.is_terminated || s.has_task_pending) ≡ true
      → run_until_idle (poll ∷ polls) s ≡ (poll_once poll s >>= λ s'. run_until_idle polls s')
  unfolding run_until_idle
  run_until_idle-step e =
      ap (λ b. elim b [ false ↦ ok s | true ↦ poll_once poll s >>= λ s'. run_until_idle polls s' ])
        e

  run_until_terminated-over :
      s.worker.is_terminated ≡ true → run_until_terminated (poll ∷ polls) s ≡ ok s
  unfolding run_until_terminated
  run_until_terminated-over e =
      ap
        (λ b. elim b [
          | true ↦ ok s
          | false ↦ poll_once poll s >>= λ s'. run_until_terminated polls s'
        ])
        e

  run_until_terminated-step :
      s.worker.is_terminated ≡ false
      → run_until_terminated (poll ∷ polls) s
        ≡ (poll_once poll s >>= λ s'. run_until_terminated polls s')
  unfolding run_until_terminated
  run_until_terminated-step e =
      ap
        (λ b. elim b [
          | true ↦ ok s
          | false ↦ poll_once poll s >>= λ s'. run_until_terminated polls s'
        ])
        e

waits :
    (s : Loop)
    → s.has_task_pending ≡ true
    → (not s.worker.is_terminated || s.has_task_pending) ≡ true
waits s e = ap (λ b. not s.worker.is_terminated || b) e ∙ ||_true (not s.worker.is_terminated)

run_until_idle-quiet :
    (polls : List Poll) (s : Loop)
    → AllQuiet polls
    → s.has_task_pending ≡ true
    → run_until_idle polls s ≡ fault no_return
unfolding run_until_idle
run_until_idle-quiet [] s quiet pending =
    ap (λ b. if b then fault no_return else ok s) (waits s pending)
run_until_idle-quiet (poll ∷ polls) s (here, quiet) pending =
    run_until_idle-step poll polls s (waits s pending)
    ∙ ap (λ o. o >>= λ s'. run_until_idle polls s') (poll_once-quiet poll s here)
    ∙ run_until_idle-quiet polls (quiet_poll poll s) quiet (quiet_poll-pending poll s ∙ pending)

-- Some poll of the list gives a timeout or an error.
abbrev pub some_ends : List Poll → Bool
some_ends [] = false
some_ends (poll ∷ polls) = ends_loop poll.result || some_ends polls

still_ends :
    (poll : Poll) (polls : List Poll) (s : Loop)
    → some_ends (poll ∷ polls) ≡ true
    → ((quiet_poll poll s).worker.is_terminated || some_ends polls) ≡ true
still_ends poll polls s e = elim (Bool-cases (ends_loop poll.result)) [
  | inl t ↦ ap (λ b. b || some_ends polls) (quiet_poll-ends poll s t)
  | inr f ↦
      ap (λ b. (quiet_poll poll s).worker.is_terminated || b) (rw f at e)
      ∙ ||_true (quiet_poll poll s).worker.is_terminated
]

run_until_terminated-quiet :
    (polls : List Poll) (s : Loop)
    → AllQuiet polls
    → (s.worker.is_terminated || some_ends polls) ≡ true
    → (s' : Loop) × (run_until_terminated polls s ≡ ok s') × (s'.worker.is_terminated ≡ true)
unfolding run_until_terminated
run_until_terminated-quiet [] s quiet e =
    let over = sym (||_false s.worker.is_terminated) ∙ e in
    (s, ap (λ b. if not b then fault no_return else ok s) over, over)
run_until_terminated-quiet (poll ∷ polls) s (here, quiet) e =
    elim (Bool-cases s.worker.is_terminated) [
      | inl t ↦ (s, run_until_terminated-over poll polls s t, t)
      | inr f ↦
          let (s', rest, over) =
            run_until_terminated-quiet polls (quiet_poll poll s) quiet
              (still_ends poll polls s (rw f at e)) in
          (
            s',
            run_until_terminated-step poll polls s f
                ∙ ap (λ o. o >>= λ s'. run_until_terminated polls s') (poll_once-quiet poll s here)
                ∙ rest,
            over,
          )
    ]

-- While the descriptor does not get ready and a task may be pending, as it is at the start, a timeout or an error
-- of the looper makes the worker leave `RunLoop` if it exits immediately, terminated; but if it does not, it never
-- leaves, however often it polls, even when it has been terminated.
pub run_loop-quiet :
    (polls : List Poll) (s : Loop)
    → AllQuiet polls
    → s.has_task_pending ≡ true
    → some_ends polls ≡ true
    → ((s' : Loop) × (run_loop polls (record s { is_exit_immediately = true }) ≡ ok s')
        × (s'.worker.is_terminated ≡ true))
      × (run_loop polls (record s { is_exit_immediately = false }) ≡ fault no_return)
unfolding run_loop
run_loop-quiet polls s quiet pending ends = (
  run_until_terminated-quiet polls (record s { is_exit_immediately = true }) quiet
      (ap (λ b. s.worker.is_terminated || b) ends ∙ ||_true s.worker.is_terminated),
  run_until_idle-quiet polls (record s { is_exit_immediately = false }) quiet pending,
)
