-- ===== src/SpscQueue/Runs.antt =====
-- Sequences of calls on the ring of spsc_queue.h, and its forced push.
use footstone.Base.{
  ℕ, suc, ◌+◌, ◌-◌, ◌≤◌, ◌<◌, ◌≡◌, refl, ◌∙◌, inl, inr, Bool, true, false, List, [], ◌∷◌, ◌++◌,
  Option, none, some, length, arith, ltb, Bool-cases, if◌then◌else◌,
}
use footstone.Base.Fifo.{Call, push_call, pop_call, fifo_push, fifo_pop, fifo_run}
use footstone.SpscQueue.{Queue, empty, pop, push, push_until_success}
use footstone.SpscQueue.Refine.{
  count_of, IsValid, contents, wrap_cases, length-window, length-contents, push_refines,
  pop_refines,
}

-- A client's calls in order, with what each returns.
unfoldable pub run : {A : Type 0} → Bool → ℕ → Queue A → List (Call A) → List (Bool × Option A)
unfolding push pop
run promotes limit q [] = []
run promotes limit q (push_call x ∷ calls) =
    let (q', done) = push promotes limit q x in (done, none) ∷ run promotes limit q' calls
run promotes limit q (pop_call ∷ calls) =
    let (q', out) = pop limit q in
    (elim out [ none ↦ false | some _ ↦ true ], out) ∷ run promotes limit q' calls

-- No sequence of calls tells a valid ring from the bounded first-in first-out queue of its elements,
-- whichever way the index arithmetic is done.
pub run_refines :
    {A : Type 0} (promotes : Bool) (limit : ℕ) (q : Queue A) (calls : List (Call A))
    → IsValid limit q
    → run promotes limit q calls ≡ fifo_run q.max_size (contents limit q) calls
unfolding run fifo_run
run_refines promotes limit q [] v = refl
run_refines promotes limit q (push_call x ∷ calls) v =
    let (e, w, m) = push_refines promotes limit x v in
    rw (run_refines promotes limit (push promotes limit q x).0 calls w, ← e, m)
run_refines promotes limit q (pop_call ∷ calls) v =
    let (e, w, m) = pop_refines limit v in
    rw (run_refines promotes limit (pop limit q).0 calls w, ← e, m)

-- What `push_until_success` promises: the new element is last, and the oldest gives way if it must.
unfoldable pub fifo_force : {A : Type 0} → ℕ → List A → A → List A
fifo_force cap q x = if ltb (length q) cap then q ++ (x ∷ []) else (fifo_pop q).0 ++ (x ∷ [])

-- A failed `push` leaves the ring as it was.
push-false :
    {A : Type 0} (promotes : Bool) (limit : ℕ) (q : Queue A) (x : A)
    → (push promotes limit q x).1 ≡ false
    → (push promotes limit q x).0 ≡ q
unfolding push
push-false promotes limit q x e = ground arith

module _ {A : Type 0} (promotes : Bool) (limit rounds : ℕ) where
  until_now :
      (q : Queue A) (x : A)
      → (push promotes limit q x).1 ≡ true
      → push_until_success promotes limit (suc rounds) q x ≡ some (push promotes limit q x).0
  unfolding push_until_success
  until_now q x e = rw e

  until_next :
      (q : Queue A) (x : A)
      → (push promotes limit q x).1 ≡ false
      → push_until_success promotes limit (suc rounds) q x
        ≡ push_until_success promotes limit rounds (pop limit q).0 x
  unfolding push_until_success
  until_next q x e = rw (e, push-false promotes limit q x e)

module _ {A : Type 0} (cap : ℕ) (x : A) where
  forced_room :
      (l l' : List A) (d : Bool) → (l', d) ≡ fifo_push cap l x → d ≡ true → l' ≡ fifo_force cap l x
  unfolding fifo_push fifo_force
  forced_room l l' d e h = ground arith

  forced_full :
      (l p l' : List A) (d d' : Bool) (out : Option A) (k : List A)
      → 1 ≤ cap
      → length l ≤ cap
      → (k, d) ≡ fifo_push cap l x
      → d ≡ false
      → (p, out) ≡ fifo_pop l
      → (l', d') ≡ fifo_push cap p x
      → (d' ≡ true) × (l' ≡ fifo_force cap l x)
  unfolding fifo_push fifo_force fifo_pop
  forced_full [] p l' d d' out k pos len e h e' e'' = ground arith
  forced_full (y ∷ l) p l' d d' out k pos len e h e' e'' = ground arith

-- In a valid ring of room for one element at least, two rounds of `push_until_success` are enough:
-- the element goes in, and only a full ring loses its oldest.
push_until_success_lem :
    {A : Type 0} (promotes : Bool) (limit rounds : ℕ) {q : Queue A} (x : A)
    → IsValid limit q
    → 1 ≤ q.max_size
    → (q' : Queue A) × (push_until_success promotes limit (suc (suc rounds)) q x ≡ some q')
      × IsValid limit q'
      × (contents limit q' ≡ fifo_force q.max_size (contents limit q) x)
push_until_success_lem promotes limit rounds {q} x v pos =
    let (e, w, m) = push_refines promotes limit x v in
    let (e', w', m') = pop_refines limit v in
    let (e'', w'', m'') = push_refines promotes limit x w' in
    let n : length (contents limit q) ≤ q.max_size = omega (arith, length-contents limit v) in
    elim (Bool-cases (push promotes limit q x).1) [
      | inl done ↦ (
        (push promotes limit q x).0,
        until_now promotes limit (suc rounds) q x done,
        w,
        forced_room q.max_size x (contents limit q) _ _ e done,
      )
      | inr full ↦
          let (done, same) =
            forced_full q.max_size x (contents limit q) _ _ _ _ _ _ pos n e full e'
              (rw m' at e'') in
          (
            (push promotes limit (pop limit q).0 x).0,
            until_next promotes limit (suc rounds) q x full
                ∙ until_now promotes limit rounds (pop limit q).0 x done,
            w'',
            same,
          )
    ]

-- With arithmetic in `int` the documented limit on `max_size` is needed: in a ring that is allowed
-- more elements than `limit`, the push that fills the last cell at tail 0 succeeds and leaves the
-- ring empty, so all of its elements are lost.
push_overfull :
    {A : Type 0} (limit : ℕ) (q : Queue A) (x : A)
    → limit < q.max_size
    → q.tail ≡ 0
    → q.head ≡ limit
    → 1 ≤ limit
    → (length (contents limit q) ≡ limit)
      × ((push true limit q x).1 ≡ true)
      × (empty (push true limit q x).0 ≡ true)
unfolding push empty
push_overfull limit q x big t h pos = (
  length-contents' ∙ count,
  ground (arith, count),
  ground (arith, count, wrap_cases limit (q.head + 1) (omega arith)),
)
  where
    length-contents' : length (contents limit q) ≡ count_of limit q.tail q.head
    length-contents' = length-window limit q.block q.tail (count_of limit q.tail q.head)

    count : count_of limit q.tail q.head ≡ limit
    count = omega (arith, wrap_cases limit (q.head + suc limit - q.tail) (omega arith))
