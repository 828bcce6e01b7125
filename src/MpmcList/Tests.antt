-- ===== src/MpmcList/Tests.antt =====
-- Tagged pointers and a list of mpmc_list.h, and instances of their theorems.
use footstone.Base.{ℕ, ◌≡◌, refl, true, false, [], ◌∷◌, Option, none, some, arith, Bool}
use footstone.MpmcList.{Chained, compare_exchange, new, push, pop}
use footstone.Base.Fifo.{push_call, pop_call}
use footstone.MpmcList.Runs.{run, endless_run, run_as_endless, new-IsQuiet}
use footstone.MpmcList.Tags.{after_exchanges, compare_exchange-stale}

-- The pointer 5 was replaced by 6, and then by 5 again.
compare_exchange-stale_example :
    compare_exchange (after_exchanges 5 (6 ∷ 5 ∷ [])) 5 7
    ≡ (after_exchanges 5 (6 ∷ 5 ∷ []), after_exchanges 5 (6 ∷ 5 ∷ []), false)
compare_exchange-stale_example =
    compare_exchange-stale 5 7 (6 ∷ 5 ∷ []) (omega arith) (omega arith, (omega arith, tt))
      (omega arith) (omega arith)

-- What comes out after pushing 7 and 8, popping once, and pushing 9 into the node that was freed.
abbrev answer : Option (Chained ℕ × Option ℕ) → Option ℕ
answer none = none
answer (some (q, out)) = out

abbrev then_push : ℕ → Option (Chained ℕ × Bool) → Option (Chained ℕ × Bool)
then_push x none = none
then_push x (some (q, _)) = push 2 q x

abbrev then_pop : Option (Chained ℕ × Bool) → Option (Chained ℕ × Bool)
then_pop none = none
then_pop (some (q, _)) = elim (pop 2 q) [ none ↦ none | some (q', _) ↦ some (q', true) ]

abbrev last_pop : Option (Chained ℕ × Bool) → Option ℕ
last_pop none = none
last_pop (some (q, _)) = answer (pop 2 q)

second_out : last_pop (then_push 9 (then_pop (then_push 8 (push 2 (new 0) 7)))) ≡ some 8
unfolding push pop new
second_out = refl

abbrev unused : Chained ℕ
unused = new 0

run_as_endless_example :
    run 2 unused (push_call 7 ∷ push_call 8 ∷ pop_call ∷ push_call 9 ∷ pop_call ∷ [])
    ≡ some (endless_run [] (push_call 7 ∷ push_call 8 ∷ pop_call ∷ push_call 9 ∷ pop_call ∷ []))
unfolding new
run_as_endless_example =
    run_as_endless 0 unused [] []
      (push_call 7 ∷ push_call 8 ∷ pop_call ∷ push_call 9 ∷ pop_call ∷ []) (new-IsQuiet 0)
      (omega arith) (omega arith)
