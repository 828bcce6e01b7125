-- ===== src/SpscQueue/Threads/Tests.antt =====
-- An interleaving of the two threads of a ring, and instances of the theorems about all of them.
use footstone.Base.Store.{write}
use footstone.Base.{ℕ, ◌≤◌, ◌<◌, ◌≡◌, ◌≢◌, refl, true, [], ◌∷◌, ◌++◌, length, arith}
use footstone.SpscQueue.{new}
use footstone.SpscQueue.Refine.{contents}
use footstone.SpscQueue.Threads.{
  resting, outside, has_both, not_empty, State, refuses, load_head, load_tail, store, add_head,
  begin_pop, find_more, start, Reach, begin, next,
}
use footstone.SpscQueue.Threads.Schedule.{fifo_order, no_race}
use footstone.SpscQueue.Threads.Alone.{PushEnds, PopEnds, PushesAlone, PopsAlone, calls_end}

-- A ring of four cells for two elements: 5 has been pushed, and while `pop` is about to read its cell
-- another push has found room for 6.
abbrev meeting : State ℕ
meeting = record {
  queue = record { max_size = 2; block = write 0 5 (λ _. 0); tail = 0; head = 1 };
  producer = has_both 6 1 0;
  consumer = not_empty 0;
  sent = 5 ∷ [];
  received = [];
}

meeting-Reach : Reach true 3 2 0 meeting
unfolding start new refuses
meeting-Reach =
    next
      (next
        (next
          (next
            (next (next (next (next begin (load_head 5 refl)) (load_tail refl)) (store refl refl))
              (add_head refl))
            (begin_pop refl))
          (find_more refl (omega arith)))
        (load_head 6 refl))
      (load_tail refl)

fifo_order_example :
    (5 ∷ [] ≡ [] ++ contents 3 meeting.queue) × (length (contents 3 meeting.queue) ≤ 2)
fifo_order_example = fifo_order true 3 (omega arith) meeting-Reach

no_race_example : (length (contents 3 meeting.queue) < 2) × (◌≢◌ {A = ℕ} 1 0)
unfolding refuses
no_race_example = no_race true 3 (omega arith) meeting-Reach refl refl refl

calls_end_example :
    PushEnds true 3 meeting
    × PopEnds true 3 meeting
    × ((val : ℕ) → meeting.producer ≡ outside → PushesAlone true 3 meeting val)
    × (meeting.consumer ≡ resting → PopsAlone true 3 meeting)
calls_end_example = calls_end true 3 meeting
