-- ===== src/MpmcList.antt =====
-- include/footstone/mpmc_list.h, while no other thread is in a call. A pointer is an index of the store of
-- nodes, below 2 ^ 48, and 0 is the null pointer. A tagged pointer is a number of 64 bits.
pub mod Tags
pub mod Nodes
pub mod Pool
pub mod Free
pub mod Fifo
pub mod Runs
mod Tests
use footstone.Base.{
  ℕ, zero, suc, ◌+◌, ◌-◌, ◌*◌, ◌/◌, ◌%◌, ◌^◌, Bool, true, false, not, Option, none, some, ◌==◌,
  if◌then◌else◌,
}
use footstone.Base.Store.{write}

-- `incr`: a tag is a multiple of it, and a pointer is less.
abbrev pub incr : ℕ
incr = 2 ^ 48

-- `ptr`: the bits of `mask`.
unfoldable pub ptr : ℕ → ℕ
ptr word = word % incr

-- `add`
unfoldable pub add : ℕ → ℕ
add tag = (tag + incr) % 2 ^ 64

-- `tagged(T ptr, std::uint64_t tag)`: the two have no bit in common, so `|` adds them.
unfoldable pub tagged : ℕ → ℕ → ℕ
tagged p tag = p + tag / incr * incr

-- The word, the expected word and the answer after `compare_exchange`.
unfoldable pub compare_exchange : ℕ → ℕ → ℕ → ℕ × ℕ × Bool
unfolding add tagged
compare_exchange word exp val =
    if word == exp then (tagged val (add exp), exp, true) else (word, word, false)

-- `exchange`, which goes round while the word is not the one that it has read; `none` if it needs more rounds.
unfoldable pub exchange : ℕ → ℕ → ℕ → ℕ → Option (ℕ × ℕ)
unfolding compare_exchange
exchange zero word old val = none
exchange (suc rounds) word old val =
    let (word', old', done) = compare_exchange word old val in
    let again = exchange rounds word' old' val in if done then some (word', old') else again

-- `store` is an `exchange`, here of a word that stays as it was read.
unfoldable pub store : ℕ → ℕ → ℕ
unfolding compare_exchange
store word val = (compare_exchange word word val).0

-- A node of the list, and `next_` of the node of the pool around it, which lies in the same memory and is
-- used while the node is free. The bytes that it finds there give only its tag, so it has a field of its own.
pub record Node {ℓ} (A : Type ℓ) : Type ℓ where
  pub elem : A
  pub next : ℕ
  pub link : ℕ

-- The list with its pool `allocator_`. `new node` answers with `fresh`.
pub record Chained {ℓ} (A : Type ℓ) : Type ℓ where
  pub nodes : ℕ → Node A
  pub fresh : ℕ
  pub cursor : ℕ
  pub el : ℕ
  pub head : ℕ
  pub tail : ℕ

module _ {ℓ} {A : Type ℓ} where
  -- The loop of `alloc`.
  unfoldable pub take_free : ℕ → ℕ → Chained A → Option (Chained A × ℕ)
  unfolding ptr compare_exchange
  take_free zero curr q = none
  take_free (suc rounds) curr q =
      let (cursor, curr', done) = compare_exchange q.cursor curr (ptr (q.nodes (ptr curr)).link) in
      elim (ptr curr == 0) [
        | true ↦ some (record q { fresh = q.fresh + 1 }, q.fresh)
        | false ↦ elim done [
          | true ↦ some (record q { cursor = cursor }, ptr curr)
          | false ↦ take_free rounds curr' (record q { cursor = cursor })
        ]
      ]

  -- `alloc(val, nullptr)`
  unfoldable pub alloc : ℕ → Chained A → A → Option (Chained A × ℕ)
  unfolding take_free write
  alloc rounds q val =
      let found =
        if q.el == 0 then take_free rounds q.cursor q else some (record q { el = 0 }, q.el) in
      elim found [
        | none ↦ none
        | some (q', p) ↦
            let node = record (q'.nodes p) { elem = val; next = 0 } in
            some (record q' { nodes = write p node q'.nodes }, p)
      ]

  -- The loop of `free`.
  unfoldable pub put_free : ℕ → ℕ → ℕ → Chained A → Option (Chained A)
  unfolding ptr compare_exchange store write
  put_free zero curr temp q = none
  put_free (suc rounds) curr temp q =
      let node = q.nodes temp in
      let nodes = write temp (record node { link = store node.link (ptr curr) }) q.nodes in
      let (cursor, curr', done) = compare_exchange q.cursor curr temp in
      elim done [
        | true ↦ some (record q { nodes = nodes; cursor = cursor })
        | false ↦ put_free rounds curr' temp (record q { nodes = nodes; cursor = cursor })
      ]

  unfoldable pub free : ℕ → Chained A → ℕ → Option (Chained A)
  unfolding put_free
  free rounds q p =
      if p == 0
      then some q
      else if q.el == 0
      then some (record q { el = p })
      else put_free rounds q.cursor q.el (record q { el = p })

  unfoldable pub empty : Chained A → Bool
  unfolding ptr
  empty q = ptr (q.nodes (ptr q.head)).next == 0

  -- The loop of `push`.
  unfoldable pub append : ℕ → ℕ → ℕ → Chained A → Option (Chained A)
  unfolding ptr compare_exchange write
  append zero p tail q = none
  append (suc rounds) p tail q =
      let node = q.nodes (ptr tail) in
      let (next, _, linked) = compare_exchange node.next node.next p in
      let nodes = write (ptr tail) (record node { next = next }) q.nodes in
      elim (tail == q.tail) [
        | false ↦ append rounds p q.tail q
        | true ↦ elim (ptr node.next == 0) [
          | true ↦ elim linked [
            | true ↦ some (record q { nodes = nodes; tail = (compare_exchange q.tail tail p).0 })
            | false ↦ append rounds p q.tail q
          ]
          | false ↦
              let (word, _, _) = compare_exchange q.tail tail (ptr node.next) in
              append rounds p word (record q { tail = word })
        ]
      ]

  unfoldable pub push : ℕ → Chained A → A → Option (Chained A × Bool)
  unfolding alloc append
  push rounds q val = elim (alloc rounds q val) [
    | none ↦ none
    | some (q', p) ↦ elim (append rounds p q'.tail q') [ none ↦ none | some q'' ↦ some (q'', true) ]
  ]

  -- The loop of `pop`.
  unfoldable pub take : ℕ → ℕ → ℕ → Chained A → Option (Chained A × Option A)
  unfolding ptr compare_exchange free
  take zero head tail q = none
  take (suc rounds) head tail q =
      let next = ptr (q.nodes (ptr head)).next in
      elim (head == q.head) [
        | false ↦ take rounds q.head q.tail q
        | true ↦ elim (ptr head == ptr tail) [
          | true ↦ elim (next == 0) [
            | true ↦ some (q, none)
            | false ↦
                let (word, _, _) = compare_exchange q.tail tail next in
                take rounds q.head word (record q { tail = word })
          ]
          | false ↦
              let (word, head', done) = compare_exchange q.head head next in
              elim done [
                | true ↦ elim (free rounds (record q { head = word }) (ptr head)) [
                  | none ↦ none
                  | some q' ↦ some (q', some (q.nodes next).elem)
                ]
                | false ↦ take rounds head' q.tail (record q { head = word })
              ]
        ]
      ]

  unfoldable pub pop : ℕ → Chained A → Option (Chained A × Option A)
  unfolding take
  pop rounds q = take rounds q.head q.tail q

  -- The first node is allocated with the list; it holds what `T`'s constructor made.
  unfoldable pub new : A → Chained A
  new made = record {
    nodes = λ _. record { elem = made; next = 0; link = 0 };
    fresh = 2;
    cursor = 0;
    el = 0;
    head = 1;
    tail = 1;
  }
