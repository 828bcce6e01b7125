-- ===== src/Base/Fifo.antt =====
-- What the bounded queues of the library promise: a list, oldest first, of at most `cap` elements.
use footstone.Base.{
  ℕ, Bool, true, false, List, [], ◌∷◌, ◌++◌, Option, none, some, length, ltb, if◌then◌else◌,
}

-- A call on a queue. It answers whether it succeeded, and with the element that came out.
pub data Call {ℓ} (A : Type ℓ) : Type ℓ where
  push_call : A → Call A
  pop_call : Call A

module _ {ℓ} {A : Type ℓ} where
  unfoldable pub fifo_push : ℕ → List A → A → List A × Bool
  fifo_push cap q x = if ltb (length q) cap then (q ++ (x ∷ []), true) else (q, false)

  unfoldable pub fifo_pop : List A → List A × Option A
  fifo_pop [] = ([], none)
  fifo_pop (x ∷ q) = (q, some x)

  unfoldable pub fifo_run : ℕ → List A → List (Call A) → List (Bool × Option A)
  unfolding fifo_push fifo_pop
  fifo_run cap q [] = []
  fifo_run cap q (push_call x ∷ calls) =
      let (q', done) = fifo_push cap q x in (done, none) ∷ fifo_run cap q' calls
  fifo_run cap q (pop_call ∷ calls) =
      let (q', out) = fifo_pop q in
      (elim out [ none ↦ false | some _ ↦ true ], out) ∷ fifo_run cap q' calls
