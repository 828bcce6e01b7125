-- ===== src/SafeQueue/Runs.antt =====
-- What `thread_safe_queue` promises: a bounded FIFO, and that `consume_all` hands over all of it.
use footstone.Base.{
  ℕ, zero, suc, ◌+◌, ◌<◌, ◌≡◌, refl, ap, ◌∙◌, true, false, List, [], ◌∷◌, none, some, length, leb,
  arith, le→ltb_false, lt→ltb, leb→le, Bool-cases, inl, inr,
}
use footstone.Base.Fifo.{Call, push_call, pop_call, fifo_run, fifo_push, fifo_pop}
use footstone.SafeQueue.{Queue, push, pop, consume_one, consume_all, run}

module _ {ℓ} {A : Type ℓ} where
  -- The effect of calling the functor on each element, oldest first.
  abbrev pub fold {κ} : {S : Type κ} → (A → S → S) → List A → S → S
  fold f [] s = s
  fold f (x ∷ xs) s = fold f xs (f x s)

module _ {ℓ} {A : Type ℓ} where
  push_lem :
      (q : Queue A) (x : A)
      → push q x ≡ (
        record q { queue = (fifo_push q.max_count q.queue x).0 },
        (fifo_push q.max_count q.queue x).1,
      )
  unfolding push fifo_push
  push_lem q x = elim (Bool-cases (leb q.max_count (length q.queue))) [
    | inl e ↦ rw (push, e, le→ltb_false _ _ (leb→le _ _ e)) refl
    | inr e ↦ rw (push, e, lt→ltb (length q.queue) q.max_count (ground arith)) refl
  ]

  run_fields :
      (max_count : ℕ) (xs : List A) (calls : List (Call A))
      → run (record { queue = xs; max_count = max_count }) calls ≡ fifo_run max_count xs calls
  unfolding run fifo_run fifo_pop pop
  run_fields max_count xs [] = refl
  run_fields max_count xs (push_call x ∷ calls) =
      rw (push_lem (record { queue = xs; max_count = max_count }) x) (
        ap (λ l. ((fifo_push max_count xs x).1, none) ∷ l)
          (run_fields max_count (fifo_push max_count xs x).0 calls))
  run_fields max_count [] (pop_call ∷ calls) =
      ap (λ l. (false, none) ∷ l) (run_fields max_count [] calls)
  run_fields max_count (x ∷ xs) (pop_call ∷ calls) =
      ap (λ l. (true, some x) ∷ l) (run_fields max_count xs calls)

  -- Every sequence of pushes and pops is answered as by a list that holds at most `max_count_` elements.
  pub run-fifo_run :
      (q : Queue A) (calls : List (Call A)) → run q calls ≡ fifo_run q.max_count q.queue calls
  run-fifo_run q calls = run_fields q.max_count q.queue calls

  -- `consume_all` ends after one round more than there are elements; it hands each element over once, oldest
  -- first, counts them, and leaves the queue empty.
  pub consume_all_lem {κ} :
      {S : Type κ} (f : A → S → S) (max_count : ℕ) (xs : List A) (s : S) (fuel count : ℕ)
      → length xs < fuel
      → consume_all fuel f (record { queue = xs; max_count = max_count }) s count
        ≡ some (record { queue = []; max_count = max_count }, fold f xs s, count + length xs)
  unfolding consume_all consume_one pop
  consume_all_lem f max_count xs s zero count h = absurd (omega arith)
  consume_all_lem f max_count [] s (suc fuel) count h =
      ap (λ n. some (record { queue = []; max_count = max_count }, s, n)) (omega arith)
  consume_all_lem f max_count (x ∷ xs) s (suc fuel) count h =
      consume_all_lem f max_count xs (f x s) fuel (count + 1) (omega arith)
      ∙ ap (λ n. some (record { queue = []; max_count = max_count }, fold f xs (f x s), n))
          (omega arith)
