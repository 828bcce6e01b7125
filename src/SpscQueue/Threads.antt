-- ===== src/SpscQueue/Threads.antt =====
-- include/footstone/spsc_queue.h, with one thread that calls `push` and one that calls `pop`. A step is
-- one access to `head_`, `tail_` or a cell of `block_`, with the tests that follow it; the steps of the
-- two threads are interleaved in any order.
pub mod Order
pub mod Schedule
pub mod Alone
mod Tests
use footstone.Base.Store.{write}
use footstone.Base.{
  ℕ, suc, ◌+◌, ◌-◌, ◌%◌, ◌≡◌, ◌≢◌, Bool, true, false, ◌||◌, List, [], ◌∷◌, ◌++◌, leb,
}
use footstone.SpscQueue.{Queue, new, meets_tail}

-- Where `push` stands, with its locals.
pub data Producer (A : Type 0) : Type 0 where
  outside : Producer A
  has_head : (val : A) (id_head : ℕ) → Producer A
  has_both : (val : A) (id_head id_tail : ℕ) → Producer A
  stored : (val : A) → Producer A

-- Where `pop` stands.
pub data Consumer (A : Type 0) : Type 0 where
  resting : Consumer A
  has_tail : (id_tail : ℕ) → Consumer A
  not_empty : (id_tail : ℕ) → Consumer A
  copied : (val : A) → Consumer A

-- The ring with both threads; `sent` and `received` are what successful calls have pushed and popped.
pub record State (A : Type 0) : Type 0 where
  pub queue : Queue A
  pub producer : Producer A
  pub consumer : Consumer A
  pub sent : List A
  pub received : List A

module _ {A : Type 0} (promotes : Bool) (limit : ℕ) where
  -- The two tests of `push`, on the indices that it has loaded.
  unfoldable pub refuses : Queue A → ℕ → ℕ → Bool
  unfolding meets_tail
  refuses q id_head id_tail =
      meets_tail promotes limit (record q { head = id_head; tail = id_tail })
      || leb q.max_size ((id_head + suc limit - id_tail) % suc limit)

  pub data Step (s : State A) : State A → Type 0 where
    load_head :
        (val : A)
        → s.producer ≡ outside
        → Step s (record s { producer = has_head val s.queue.head })
    load_tail :
        {val : A} {h : ℕ}
        → s.producer ≡ has_head val h
        → Step s (record s { producer = has_both val h s.queue.tail })
    refuse :
        {val : A} {h t : ℕ}
        → s.producer ≡ has_both val h t
        → refuses s.queue h t ≡ true
        → Step s (record s { producer = outside })
    store :
        {val : A} {h t : ℕ}
        → s.producer ≡ has_both val h t
        → refuses s.queue h t ≡ false
        → Step s (record s {
          producer = stored val;
          queue = record s.queue { block = write h val s.queue.block };
        })
    add_head :
        {val : A}
        → s.producer ≡ stored val
        → Step s (record s {
          producer = outside;
          queue = record s.queue { head = (s.queue.head + 1) % suc limit };
          sent = s.sent ++ (val ∷ []);
        })
    begin_pop : s.consumer ≡ resting → Step s (record s { consumer = has_tail s.queue.tail })
    find_empty :
        {t : ℕ}
        → s.consumer ≡ has_tail t
        → t ≡ s.queue.head
        → Step s (record s { consumer = resting })
    find_more :
        {t : ℕ}
        → s.consumer ≡ has_tail t
        → t ≢ s.queue.head
        → Step s (record s { consumer = not_empty t })
    copy :
        {t : ℕ}
        → s.consumer ≡ not_empty t
        → Step s (record s { consumer = copied (s.queue.block t) })
    add_tail :
        {val : A}
        → s.consumer ≡ copied val
        → Step s (record s {
          consumer = resting;
          queue = record s.queue { tail = (s.queue.tail + 1) % suc limit };
          received = s.received ++ (val ∷ []);
        })

  unfoldable pub start : ℕ → A → State A
  unfolding new
  start max_size made = record {
    queue = new max_size made;
    producer = outside;
    consumer = resting;
    sent = [];
    received = [];
  }

  pub data Reach (max_size : ℕ) (made : A) : State A → Type 0 where
    begin : Reach max_size made (start max_size made)
    next : {s t : State A} → Reach max_size made s → Step s t → Reach max_size made t
