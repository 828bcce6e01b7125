-- ===== src/MpmcQueue.antt =====
-- include/footstone/mpmc_queue.h, while no other thread is in a call. It extends the ring of
-- spsc_queue.h, whose cells hold an element and a flag. A weak exchange that fails for no reason goes round with
-- the same values, so it is left out; `rounds` bounds the rounds of a loop.
pub mod Refine
pub mod Runs
pub mod Flags
mod Tests
use footstone.Base.{
  ℕ, zero, suc, ◌+◌, ◌-◌, ◌%◌, ◌^◌, Bool, true, false, not, Option, none, some, leb, ◌==◌,
  if◌then◌else◌,
}
use footstone.Base.Store.{write}
use footstone.SpscQueue
use footstone.SpscQueue.{Queue}

-- The greatest value of uint64_t.
abbrev pub invalid_index : ℕ
invalid_index = 2 ^ 64 - 1

-- `rnode`
pub record Node {ℓ} (A : Type ℓ) : Type ℓ where
  pub data_ : A
  pub flag : ℕ

pub record Ring {ℓ} (A : Type ℓ) : Type ℓ where
  pub super : Queue (Node A)
  pub flag_ : ℕ

module _ {ℓ} {A : Type ℓ} where
  unfoldable pub new : ℕ → A → Ring A
  unfolding SpscQueue.new
  new max_size made = record {
    super = SpscQueue.new max_size (record { data_ = made; flag = invalid_index });
    flag_ = 0;
  }

module _ {ℓ} {A : Type ℓ} (limit : ℕ) where
  -- The loop that moves `head_` over the cells that are ready; `none` if it needs more rounds.
  unfoldable pub publish : ℕ → ℕ → Ring A → Option (Ring A)
  unfolding write
  publish zero cur_flag q = none
  publish (suc rounds) cur_flag q =
      let node = q.super.block cur_flag in
      let next_flag = (cur_flag + 1) % suc limit in
      let more = publish rounds next_flag (record q {
        super = record q.super {
          block = write cur_flag (record node { flag = invalid_index }) q.super.block;
          head = next_flag;
        };
      }) in
      if not (cur_flag == q.super.head)
      then some q
      else if not (node.flag == cur_flag)
      then some q
      else more

  unfoldable pub push : ℕ → Ring A → A → Option (Ring A × Bool)
  unfolding publish
  push rounds q val =
      let next_flag = (q.flag_ + 1) % suc limit in
      if next_flag == q.super.tail
      then some (q, false)
      else if leb q.super.max_size ((next_flag + suc limit - q.super.tail) % suc limit)
      then some (q, false)
      else elim (publish rounds q.flag_ (record q {
        super = record q.super {
          block = write q.flag_ (record { data_ = val; flag = q.flag_ }) q.super.block;
        };
        flag_ = next_flag;
      })) [ none ↦ none | some q' ↦ some (q', true) ]

  -- Where `head_` meets `tail_` at a cell that is ready, it moves `head_` for the writer, and stores `limit`
  -- in the flag.
  unfoldable pub pop : ℕ → Ring A → Option (Ring A × Option A)
  pop zero q = none
  pop (suc rounds) q =
      let head = q.super.head in
      let tail = q.super.tail in
      let again = pop rounds (record q {
        super = record q.super {
          block = write head (record (q.super.block head) { flag = limit }) q.super.block;
          head = (head + 1) % suc limit;
        };
      }) in
      if tail == head
      then (if not ((q.super.block head).flag == head) then some (q, none) else again)
      else some (
        record q { super = record q.super { tail = (tail + 1) % suc limit } },
        some (q.super.block tail).data_,
      )

  -- `while (!push(val)) pop(…)` in at most `tries` calls of `push`.
  unfoldable pub push_until_success : ℕ → ℕ → Ring A → A → Option (Ring A)
  unfolding push pop
  push_until_success rounds zero q val = none
  push_until_success rounds (suc tries) q val = elim (push rounds q val) [
    | none ↦ none
    | some (q', true) ↦ some q'
    | some (q', false) ↦ elim (pop rounds q') [
      | none ↦ none
      | some (q'', out) ↦ push_until_success rounds tries q'' val
    ]
  ]
