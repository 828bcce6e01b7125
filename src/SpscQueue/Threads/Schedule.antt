-- ===== src/SpscQueue/Threads/Schedule.antt =====
-- What the interleavings of the two threads of a ring promise.
use footstone.Base.{ℕ, ◌≤◌, ◌<◌, ◌≡◌, ◌≢◌, Bool, false, ◌++◌, length, arith}
use footstone.SpscQueue.Refine.{contents, length-contents}
use footstone.SpscQueue.Threads.{has_both, not_empty, State, refuses, Reach}
use footstone.SpscQueue.Threads.Order.{Inv, Reach-Inv, room, apart, count}

module _ {A : Type 0} (promotes : Bool) (limit : ℕ) where
  -- However the calls of a producing and a consuming thread are interleaved, what was popped is what was
  -- pushed first, in that order; the rest is in the ring, which never holds more than `max_size`
  -- elements, if the index type can count these.
  pub fifo_order :
      {max_size : ℕ} {made : A} {s : State A}
      → max_size ≤ limit
      → Reach promotes limit max_size made s
      → (s.sent ≡ s.received ++ contents limit s.queue)
        × (length (contents limit s.queue) ≤ s.queue.max_size)
  fifo_order {s} h r =
      let inv = Reach-Inv promotes limit h r in
      (inv.order, omega (arith, inv.valid.within, length-contents limit inv.valid))

  -- A push that has passed its tests finds room, also if its tail is out of date, and it writes another cell
  -- than the one that a pop is about to read.
  pub no_race :
      {max_size h t u : ℕ} {made val : A} {s : State A}
      → max_size ≤ limit
      → Reach promotes limit max_size made s
      → s.producer ≡ has_both val h t
      → refuses promotes limit s.queue h t ≡ false
      → s.consumer ≡ not_empty u
      → (length (contents limit s.queue) < s.queue.max_size) × (h ≢ u)
  no_race {h} {t} {val} {s} small r e f g =
      let inv = Reach-Inv promotes limit small r in
      let (at_head, less) = writing s inv e f in
      (omega (arith, length-contents limit inv.valid, less), reading s inv at_head g)
    where
      writing :
          (s : State A)
          → Inv limit s
          → {val : A} {i t : ℕ} → s.producer ≡ has_both val i t
          → refuses promotes limit s.queue i t ≡ false
          → (i ≡ s.queue.head) × (count limit s.queue < s.queue.max_size)
      writing s inv {val} {i} {t} e f =
          (ground arith, ground (arith, room promotes limit s.queue i t inv.valid f))

      reading :
          (s : State A)
          → Inv limit s
          → {i u : ℕ} → i ≡ s.queue.head
          → s.consumer ≡ not_empty u
          → i ≢ u
      reading s inv at_head e same = ground (arith, apart limit s.queue inv.valid)
