-- ===== src/MpmcQueue/Tests.antt =====
-- Rings of mpmc_queue.h with a uint8_t index, and instances of their theorems.
use footstone.Base.{ℕ, ◌≡◌, refl, false, [], ◌∷◌, none, some, arith}
use footstone.Base.Fifo.{push_call, pop_call, fifo_run}
use footstone.MpmcQueue.{Ring, new, push, pop}
use footstone.MpmcQueue.Refine.{new-IsQuiet}
use footstone.MpmcQueue.Runs.{run, run_as_fifo}
use footstone.MpmcQueue.Flags.{at_last, last_cell_twice}

abbrev ring : ℕ → Ring ℕ
ring n = new n 0

run_as_fifo_example :
    run 255 2 (ring 2) (push_call 7 ∷ push_call 8 ∷ pop_call ∷ pop_call ∷ [])
    ≡ some (fifo_run 1 [] (push_call 7 ∷ push_call 8 ∷ pop_call ∷ pop_call ∷ []))
unfolding new footstone.SpscQueue.new
run_as_fifo_example =
    run_as_fifo 255 0 (ring 2) (push_call 7 ∷ push_call 8 ∷ pop_call ∷ pop_call ∷ [])
      (new-IsQuiet 255 2 0 (omega arith) (omega arith)) (omega arith)

-- A writer has stored 9 in the last cell, and has not moved `head_` yet.
abbrev late_ring : Ring ℕ
late_ring = record {
  super = record {
    max_size = 255;
    block = λ _. record { data_ = 9; flag = 255 };
    tail = 255;
    head = 255;
  };
  flag_ = 0;
}

last_cell_twice_example :
    (q' : Ring ℕ) × (q'' : Ring ℕ) × (pop 255 2 late_ring ≡ some (q', some 9))
    × (pop 255 2 (at_last 255 q') ≡ some (q'', some 9))
    × ((y : ℕ) → push 255 2 q'' y ≡ some (q'', false))
    × (pop 255 1 q'' ≡ some (q'', none))
last_cell_twice_example =
    last_cell_twice 255 late_ring 0 (record { tail_at = refl; head_at = refl; ready = refl })
      (omega arith) (λ e. omega (arith, e))
