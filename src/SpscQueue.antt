-- ===== src/SpscQueue.antt =====
-- include/footstone/spsc_queue.h. The functions here run alone; Threads interleaves those of two threads.
-- The index type `U` is given by its greatest value `limit` and by whether arithmetic on it is done in
-- `int` (`promotes`), as it is for uint8_t, the default, and uint16_t. Every value of `U` is an index of
-- `block_`, which has `limit + 1` cells, so the array is a function.
pub mod Refine
pub mod Runs
pub mod Threads
mod Tests
use footstone.Base.Store.{write}
use footstone.Base.{
  ℕ, zero, suc, ◌+◌, ◌-◌, ◌%◌, Bool, true, false, not, ◌&&◌, Option, none, some, leb, ◌==◌,
  if◌then◌else◌,
}

pub record Queue {ℓ} (A : Type ℓ) : Type ℓ where
  pub max_size : ℕ
  pub block : ℕ → A
  pub tail : ℕ
  pub head : ℕ

module _ {ℓ} {A : Type ℓ} where
  -- `T block_[size_limit + 1]` holds values that `T`'s constructor made.
  unfoldable pub new : ℕ → A → Queue A
  new max_size made = record { max_size = max_size; block = λ _. made; tail = 0; head = 0 }

  unfoldable pub empty : Queue A → Bool
  empty q = q.tail == q.head

  unfoldable pub pop : ℕ → Queue A → Queue A × Option A
  pop limit q =
      if q.tail == q.head
      then (q, none)
      else (record q { tail = (q.tail + 1) % suc limit }, some (q.block q.tail))

module _ {ℓ} {A : Type ℓ} (promotes : Bool) (limit : ℕ) where
  -- `id_head == id_tail - 1`: in `int`, the right side is -1 at tail 0, which no index equals.
  unfoldable pub meets_tail : Queue A → Bool
  meets_tail q = if q.tail == 0 then not promotes && (q.head == limit) else q.head == (q.tail - 1)

  unfoldable pub push : Queue A → A → Queue A × Bool
  unfolding meets_tail write
  push q val =
      if meets_tail q
      then (q, false)
      else if leb q.max_size ((q.head + suc limit - q.tail) % suc limit)
      then (q, false)
      else (record q { block = write q.head val q.block; head = (q.head + 1) % suc limit }, true)

  -- `while (!push(val)) pop(…)` in at most `rounds` calls of `push`; `none` if they do not suffice.
  unfoldable pub push_until_success : ℕ → Queue A → A → Option (Queue A)
  push_until_success zero q val = none
  push_until_success (suc rounds) q val =
      let (q', done) = push q val in
      let again = push_until_success rounds (pop limit q').0 val in if done then some q' else again
