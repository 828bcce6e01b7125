-- ===== src/LoopWorker/Alarm.antt =====
-- What the timerfd of the worker is set to, and when it expires.
use footstone.Base.{ℕ, ◌+◌, ◌*◌, ◌<◌, ◌≡◌, Bool, false, none, some, leb}
use footstone.Base.Int.{pos_part}
use footstone.Time.{Spec}
use footstone.LoopWorker.{ItimerSpec, TimerFlags, no_flags, tfd_timer_abstime, Loop}

abbrev pub nanos : Spec → ℕ
nanos ts = pos_part ts.tv_sec * 1000000000 + pos_part ts.tv_nsec

-- `fires flags set_at now spec`: a timerfd that was set to `spec` with `flags` when its clock read `set_at` has
-- expired when the clock reads `now`.
abbrev pub Fires : Type 0
Fires = TimerFlags → ℕ → ℕ → ItimerSpec → Bool

-- As documented, the first expiration is a time on the clock with TFD_TIMER_ABSTIME, and a time after the call
-- without it.
abbrev pub IsDocumented : Fires → Type 0
IsDocumented fires =
    (set_at now : ℕ) (spec : ItimerSpec)
    → 0 < nanos spec.it_value
    → (fires no_flags set_at now spec ≡ leb (set_at + nanos spec.it_value) now)
      × (fires tfd_timer_abstime set_at now spec ≡ leb (nanos spec.it_value) now)

-- The descriptor, set at `set_at`, is ready at `now`.
abbrev pub due : Fires → ℕ → ℕ → Loop → Bool
due fires set_at now s = elim s.armed [
  | none ↦ false
  | some (flags, spec) ↦ fires flags set_at now spec
]
