-- ===== src/SpscQueue/Tests.antt =====
-- Runs of spsc_queue.h on a ring of four cells, and instances of its theorems.
use footstone.Base.Store.{write}
use footstone.Base.{ℕ, ◌+◌, true, false, List, [], ◌∷◌, none, some, ◌≡◌, refl, arith}
use footstone.Base.Fifo.{push_call, pop_call, Call, fifo_run}
use footstone.SpscQueue.{Queue}
use footstone.SpscQueue.Refine.{IsValid}
use footstone.SpscQueue.Runs.{run, run_refines}

-- `limit` 3 and room for two elements; the ring goes round its end.
abbrev wrapped : Queue ℕ
wrapped = record { max_size = 2; block = λ i. 7 + i; tail = 3; head = 1 }

abbrev script : List (Call ℕ)
script = push_call 1 ∷ pop_call ∷ push_call 2 ∷ pop_call ∷ pop_call ∷ pop_call ∷ []

run-wrapped :
    run true 3 wrapped script
    ≡ (false, none)
      ∷ (true, some 10)
      ∷ (true, none)
      ∷ (true, some 7)
      ∷ (true, some 2)
      ∷ (false, none)
      ∷ []
unfolding run write
run-wrapped = refl

wrapped-IsValid : IsValid 3 wrapped
wrapped-IsValid = omega arith

run_refines_example : run true 3 wrapped script ≡ fifo_run 2 (10 ∷ 7 ∷ []) script
run_refines_example = run_refines true 3 wrapped script wrapped-IsValid

abbrev overfull : Queue ℕ
overfull = record { max_size = 9; block = λ i. i; tail = 0; head = 3 }
