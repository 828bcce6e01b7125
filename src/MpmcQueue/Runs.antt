-- ===== src/MpmcQueue/Runs.antt =====
-- Sequences of calls on the ring of mpmc_queue.h, one after the other, and its forced push.
use footstone.Base.{
  ℕ, zero, suc, ◌-◌, ◌≤◌, ◌<◌, ◌≡◌, refl, ◌∙◌, Bool, true, false, List, [], ◌∷◌, ◌++◌, Option, none,
  some, length, arith, ltb, Bool-cases, ltb→lt, inl, inr, ap,
}
use footstone.Base.Fifo.{Call, push_call, pop_call, fifo_pop, fifo_run}
use footstone.MpmcQueue.{Ring, pop, push, push_until_success, invalid_index}
use footstone.MpmcQueue.Refine.{
  IsQuiet, elements, push_as_fifo, pop_as_fifo, stored, elements-stored, push_takes, push_refuses,
  length-elements,
}
use footstone.SpscQueue.Runs.{fifo_force}

-- A client's calls in order, with what each returns; `none` if a loop needs more than `rounds` rounds.
unfoldable pub run : {A : Type 0} → ℕ → ℕ → Ring A → List (Call A) → Option (List (Bool × Option A))
unfolding push pop
run limit rounds q [] = some []
run limit rounds q (push_call x ∷ calls) = elim (push limit rounds q x) [
  | none ↦ none
  | some (q', done) ↦ elim (run limit rounds q' calls) [
    | none ↦ none
    | some answers ↦ some ((done, none) ∷ answers)
  ]
]
run limit rounds q (pop_call ∷ calls) = elim (pop limit rounds q) [
  | none ↦ none
  | some (q', out) ↦ elim (run limit rounds q' calls) [
    | none ↦ none
    | some answers ↦ some ((elim out [ none ↦ false | some _ ↦ true ], out) ∷ answers)
  ]
]

-- From a valid ring in which no call is under way, no sequence of calls, none of which overlaps
-- another, tells the ring from the bounded queue of its elements with room for one less than
-- `max_size`, if the index type is smaller than uint64_t. Two rounds of each loop are enough.
pub run_as_fifo :
    {A : Type 0} (limit rounds : ℕ) (q : Ring A) (calls : List (Call A))
    → IsQuiet limit q
    → limit < invalid_index
    → run limit (suc (suc rounds)) q calls
      ≡ some (fifo_run (q.super.max_size - 1) (elements limit q) calls)
unfolding run fifo_run
run_as_fifo limit rounds q [] v small = refl
run_as_fifo limit rounds q (push_call x ∷ calls) v small =
    let (q', done, e, as_fifo, w, cap) = push_as_fifo limit q x rounds v small in
    rw (run, e, run_as_fifo limit rounds q' calls w small, ← as_fifo, cap) refl
run_as_fifo limit rounds q (pop_call ∷ calls) v small =
    let (q', out, e, as_fifo, w, cap) = pop_as_fifo limit q (suc rounds) v in
    rw (run, e, run_as_fifo limit rounds q' calls w small, ← as_fifo, cap) refl

length-fifo_pop : {A : Type 0} (l : List A) → length (fifo_pop l).0 ≡ length l - 1
unfolding fifo_pop
length-fifo_pop [] = omega arith
length-fifo_pop (x ∷ l) = omega arith

module _ {A : Type 0} (limit rounds : ℕ) where
  until_now :
      (tries : ℕ) (q : Ring A) (x : A)
      → IsQuiet limit q
      → length (elements limit q) < q.super.max_size - 1
      → push_until_success limit (suc (suc rounds)) (suc tries) q x ≡ some (stored limit q x)
  unfolding push_until_success
  until_now tries q x v room =
      rw
        (
          push_until_success,
          push_takes limit q x rounds v (omega (arith, length-elements limit q v)),
        )
        refl

  -- A `push` that is refused, and the `pop` behind it.
  until_next :
      (tries : ℕ) (q : Ring A) (x : A)
      → IsQuiet limit q
      → q.super.max_size - 1 ≤ length (elements limit q)
      → (q' : Ring A) × (push_until_success limit (suc (suc rounds)) (suc tries) q x
          ≡ push_until_success limit (suc (suc rounds)) tries q' x)
        × (elements limit q' ≡ (fifo_pop (elements limit q)).0)
        × IsQuiet limit q'
        × (q'.super.max_size ≡ q.super.max_size)
  unfolding push_until_success
  until_next tries q x v full =
      let (q', out, e, as_fifo, w, cap) = pop_as_fifo limit q (suc rounds) v in
      (
        q',
        rw
            (
              push_until_success,
              push_refuses limit q x (suc (suc rounds)) v
                  (omega (arith, length-elements limit q v)),
              e,
            )
            refl,
        ap (λ p. p.0) as_fifo,
        w,
        cap,
      )

-- In a valid ring with at most `max_size` - 1 elements, while no call is under way,
-- `push_until_success` ends within two calls of `push` where `max_size` is 2 at least, and drops the
-- oldest element only of a full queue.
push_until_ends :
    {A : Type 0} (limit rounds tries : ℕ) (q : Ring A) (x : A)
    → IsQuiet limit q
    → 2 ≤ q.super.max_size
    → length (elements limit q) ≤ q.super.max_size - 1
    → (q' : Ring A) × (push_until_success limit (suc (suc rounds)) (suc (suc tries)) q x ≡ some q')
      × (elements limit q' ≡ fifo_force (q.super.max_size - 1) (elements limit q) x)
unfolding fifo_force
push_until_ends limit rounds tries q x v two within =
    elim (Bool-cases (ltb (length (elements limit q)) (q.super.max_size - 1))) [
      | inl e ↦
          let room = ltb→lt (length (elements limit q)) (q.super.max_size - 1) e in
          (
            stored limit q x,
            until_now limit rounds (suc tries) q x v room,
            rw e (
                elements-stored limit q x v
                  (omega (arith, room, length-elements limit q v, v.ring_valid.cap_in))),
          )
      | inr e ↦
          let full : q.super.max_size - 1 ≤ length (elements limit q) = ground arith in
          let (q', next, popped, w, cap) = until_next limit rounds (suc tries) q x v full in
          let room : length (elements limit q') < q'.super.max_size - 1 =
            omega (arith, ap length popped, length-fifo_pop (elements limit q)) in
          (
            stored limit q' x,
            next ∙ until_now limit rounds tries q' x w room,
            rw e (
                elements-stored limit q' x w
                  (omega (arith, room, length-elements limit q' w, w.ring_valid.cap_in))
                ∙ ap (λ l. l ++ (x ∷ [])) popped),
          )
    ]

-- In a valid ring, while no call is under way, it never ends with a `max_size` of 0 or 1, which leaves
-- room for no element.
push_until_never :
    {A : Type 0} (limit rounds tries : ℕ) (q : Ring A) (x : A)
    → IsQuiet limit q
    → q.super.max_size ≤ 1
    → push_until_success limit (suc (suc rounds)) tries q x ≡ none
unfolding push_until_success
push_until_never limit rounds zero q x v small = refl
push_until_never limit rounds (suc tries) q x v small =
    let (q', next, _, w, cap) = until_next limit rounds tries q x v (omega arith) in
    next ∙ push_until_never limit rounds tries q' x w (omega arith)
