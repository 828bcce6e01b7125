-- ===== src/SafeQueue.antt =====
-- include/footstone/thread_safe_queue.h. Every operation but `empty` holds the mutex of the queue, so an
-- interleaving of threads is a sequence of operations. `consume_all` takes the mutex for each element;
-- it is modelled with no other thread at work.
pub mod Runs
pub mod Agree
mod Tests
use footstone.Base.{
  ℕ, zero, suc, ◌+◌, Bool, true, false, List, [], ◌∷◌, ◌++◌, Option, none, some, length, leb,
  if◌then◌else◌,
}
use footstone.Base.Fifo.{Call, push_call, pop_call}

pub record Queue {ℓ} (A : Type ℓ) : Type ℓ where
  pub queue : List A
  pub max_count : ℕ

module _ {ℓ} {A : Type ℓ} where
  unfoldable pub new : ℕ → Queue A
  new max_count = record { queue = []; max_count = max_count }

  unfoldable pub push : Queue A → A → Queue A × Bool
  push q obj =
      if leb q.max_count (length q.queue)
      then (q, false)
      else (record q { queue = q.queue ++ (obj ∷ []) }, true)

  unfoldable pub pop : Queue A → Queue A × Option A
  pop q = elim q.queue [ [] ↦ (q, none) | x ∷ rest ↦ (record q { queue = rest }, some x) ]

  unfoldable pub empty : Queue A → Bool
  empty q = elim q.queue [ [] ↦ true | _ ∷ _ ↦ false ]

  -- The functor's state is threaded through its calls.
  unfoldable pub consume_one {κ} : {S : Type κ} → (A → S → S) → Queue A → S → Queue A × S × Bool
  unfolding pop
  consume_one f q s =
      let (q', out) = pop q in elim out [ none ↦ (q', s, false) | some x ↦ (q', f x s, true) ]

  -- `while (consume_one(f)) element_count += 1;`, with the number of rounds as fuel; `none` says that the
  -- fuel was not enough.
  unfoldable pub consume_all {κ} :
      {S : Type κ} → ℕ → (A → S → S) → Queue A → S → ℕ → Option (Queue A × S × ℕ)
  unfolding consume_one
  consume_all zero f q s count = none
  consume_all (suc fuel) f q s count =
      let (q', s', success) = consume_one f q s in
      let rest = consume_all fuel f q' s' (count + 1) in
      if success then rest else some (q', s', count)

  -- The answers of a queue to a sequence of calls.
  unfoldable pub run : Queue A → List (Call A) → List (Bool × Option A)
  unfolding push pop
  run q [] = []
  run q (push_call x ∷ calls) = let (q', done) = push q x in (done, none) ∷ run q' calls
  run q (pop_call ∷ calls) =
      let (q', out) = pop q in (elim out [ none ↦ false | some _ ↦ true ], out) ∷ run q' calls
