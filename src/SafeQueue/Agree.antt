-- ===== src/SafeQueue/Agree.antt =====
-- The three queues of include/footstone next to one another: spsc_queue.h, mpmc_queue.h and
-- thread_safe_queue.h.
use mathlib.Core.Path.{ap₂}
use footstone.Base.{ℕ, suc, ◌+◌, ◌-◌, ◌≤◌, ◌<◌, ◌≡◌, sym, ap, ◌∙◌, Bool, List, [], map, some, arith}
use footstone.Base.Fifo.{Call, fifo_run}
use footstone.SpscQueue
use footstone.SpscQueue.Refine.{count_of, wrap_cases, window, contents, new-IsValid}
use footstone.SpscQueue.Runs as SpscRuns
use footstone.MpmcQueue
use footstone.MpmcQueue.{invalid_index}
use footstone.MpmcQueue.Refine.{elements, new-IsQuiet}
use footstone.MpmcQueue.Runs as MpmcRuns
use footstone.SafeQueue
use footstone.SafeQueue.Runs.{run-fifo_run}

none_counted : (limit : ℕ) → count_of limit 0 0 ≡ 0
none_counted limit = omega (arith, wrap_cases limit (0 + suc limit - 0) (omega arith))

contents-new : {A : Type 0} (limit n : ℕ) (made : A) → contents limit (SpscQueue.new n made) ≡ []
unfolding SpscQueue.new
contents-new limit n made = ap (window limit (λ _. made) 0) (none_counted limit)

elements-new : {A : Type 0} (limit n : ℕ) (made : A) → elements limit (MpmcQueue.new n made) ≡ []
unfolding MpmcQueue.new
elements-new limit n made = ap (map (λ node. node.data_)) (contents-new limit n _)

less_one : (n : ℕ) → suc n - 1 ≡ n
less_one n = omega arith

module _ {A : Type 0} (limit n : ℕ) (made : A) (calls : List (Call A)) where
  fifo-safe : SafeQueue.run (SafeQueue.new n) calls ≡ fifo_run n [] calls
  unfolding SafeQueue.new
  fifo-safe = run-fifo_run (SafeQueue.new n) calls

  fifo-spsc :
      (promotes : Bool)
      → n ≤ limit
      → SpscRuns.run promotes limit (SpscQueue.new n made) calls ≡ fifo_run n [] calls
  unfolding SpscQueue.new
  fifo-spsc promotes small =
      SpscRuns.run_refines promotes limit (SpscQueue.new n made) calls
        (new-IsValid limit n made small)
      ∙ ap (λ l. fifo_run n l calls) (contents-new limit n made)

  fifo-mpmc :
      (rounds : ℕ)
      → suc n ≤ limit
      → limit < invalid_index
      → MpmcRuns.run limit (suc (suc rounds)) (MpmcQueue.new (suc n) made) calls
        ≡ some (fifo_run n [] calls)
  unfolding MpmcQueue.new SpscQueue.new
  fifo-mpmc rounds small fits =
      MpmcRuns.run_as_fifo limit rounds (MpmcQueue.new (suc n) made) calls
        (new-IsQuiet limit (suc n) made small fits) fits
      ∙ ap₂ (λ k l. some (fifo_run k l calls)) (less_one n) (elements-new limit (suc n) made)

  -- Three new queues with room for n elements, with the ring of mpmc_queue.h made for one more, give the same answers
  -- to every sequence of calls one after the other, if the index type can count n + 1 and is smaller than
  -- uint64_t; two rounds of the loops of mpmc_queue.h are enough.
  pub queues_agree :
      (promotes : Bool) (rounds : ℕ)
      → suc n ≤ limit
      → limit < invalid_index
      → (SpscRuns.run promotes limit (SpscQueue.new n made) calls
          ≡ SafeQueue.run (SafeQueue.new n) calls)
        × (MpmcRuns.run limit (suc (suc rounds)) (MpmcQueue.new (suc n) made) calls
            ≡ some (SafeQueue.run (SafeQueue.new n) calls))
  queues_agree promotes rounds small fits = (
    fifo-spsc promotes (omega arith) ∙ sym fifo-safe,
    fifo-mpmc rounds small fits ∙ ap some (sym fifo-safe),
  )
