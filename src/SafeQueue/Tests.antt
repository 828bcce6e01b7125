-- ===== src/SafeQueue/Tests.antt =====
-- Runs of a queue, and instances of its theorems.
use footstone.Base.{ℕ, ◌+◌, ◌≡◌, refl, true, false, List, [], ◌∷◌, some, none, arith}
use footstone.Base.Fifo.{Call, push_call, pop_call, fifo_run}
use footstone.SpscQueue
use footstone.SpscQueue.Runs as SpscRuns
use footstone.MpmcQueue
use footstone.MpmcQueue.Runs as MpmcRuns
use footstone.SafeQueue.Agree.{queues_agree}
use footstone.SafeQueue.{Queue, new, push, pop, run}
use footstone.SafeQueue.Runs.{run-fifo_run}

abbrev one : Queue ℕ
one = record { queue = []; max_count = 1 }

run-one :
    run one (push_call 5 ∷ push_call 6 ∷ pop_call ∷ [])
    ≡ (true, none) ∷ (false, none) ∷ (true, some 5) ∷ []
unfolding run push pop
run-one = refl

run-fifo_run_example :
    run one (push_call 5 ∷ push_call 6 ∷ pop_call ∷ pop_call ∷ [])
    ≡ fifo_run 1 [] (push_call 5 ∷ push_call 6 ∷ pop_call ∷ pop_call ∷ [])
run-fifo_run_example = run-fifo_run one (push_call 5 ∷ push_call 6 ∷ pop_call ∷ pop_call ∷ [])

abbrev add : ℕ → ℕ → ℕ
add x s = x + s

abbrev calls : List (Call ℕ)
calls = push_call 5 ∷ push_call 6 ∷ pop_call ∷ pop_call ∷ []

queues_agree_example :
    (SpscRuns.run true 255 (SpscQueue.new 1 0) calls ≡ run (new 1) calls)
    × (MpmcRuns.run 255 2 (MpmcQueue.new 2 0) calls ≡ some (run (new 1) calls))
queues_agree_example = queues_agree 255 1 0 calls true 0 (omega arith) (omega arith)
