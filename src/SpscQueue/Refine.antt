-- ===== src/SpscQueue/Refine.antt =====
-- The ring of spsc_queue.h is the bounded queue of the elements from `tail` up to `head`.
use native.Mathlib.Nat.{mod-add-mod, mod-eq_of_lt, mod-eq-sub-mod}
use mathlib.Core.Path.{ap₂}
use footstone.Base.Store.{write}
use footstone.Base.{
  ℕ, zero, suc, ◌+◌, ◌-◌, ◌%◌, ◌≤◌, ◌<◌, ◌≡◌, ◌≢◌, refl, sym, ap, ◌∙◌, ◌⊎◌, inl, inr, Bool, true,
  List, [], ◌∷◌, ◌++◌, length, arith, leb, leb→le, Bool-cases, ne→==_false, eq→==,
}
use footstone.Base.Fifo.{fifo_push, fifo_pop}
use footstone.SpscQueue.{Queue, new, pop, meets_tail, push}

-- The number of elements that the indices stand for.
abbrev pub count_of : ℕ → ℕ → ℕ → ℕ
count_of limit tail head = (head + suc limit - tail) % suc limit

-- One turn round the ring at most is taken off.
pub wrap_cases :
    (limit x : ℕ)
    → x ≤ limit + suc limit
    → ((x ≤ limit) × (x % suc limit ≡ x)) ⊎ ((limit < x) × (x % suc limit ≡ x - suc limit))
wrap_cases limit x h = elim (Bool-cases (leb x limit)) [
  | inl e ↦ let small : x ≤ limit = leb→le x limit e in inl (small, mod-eq_of_lt (omega arith))
  | inr e ↦
      let big : limit < x = ground arith in
      inr (big, mod-eq-sub-mod (omega arith) ∙ mod-eq_of_lt (omega arith))
]

-- Going round by less than a turn does not come back to the start.
pub away : (limit i k : ℕ) → i ≤ limit → 0 < k → k ≤ limit → (i + k) % suc limit ≢ i
away limit i k hi pos hk = omega (arith, wrap_cases limit (i + k) (omega arith))

module _ {ℓ} {A : Type ℓ} (limit : ℕ) where
  pub record IsValid (q : Queue A) : Type 0 where
    pub tail_in : q.tail ≤ limit
    pub head_in : q.head ≤ limit
    pub cap_in : q.max_size ≤ limit
    pub within : count_of limit q.tail q.head ≤ q.max_size

  -- the `n` elements from index `i` on, going round behind `limit`
  abbrev pub window : (ℕ → A) → ℕ → ℕ → List A
  window block i zero = []
  window block i (suc n) = block i ∷ window block ((i + 1) % suc limit) n

  abbrev pub contents : Queue A → List A
  contents q = window q.block q.tail (count_of limit q.tail q.head)

  pub length-window : (block : ℕ → A) (i n : ℕ) → length (window block i n) ≡ n
  length-window block i zero = refl
  length-window block i (suc n) = ap suc (length-window block ((i + 1) % suc limit) n)

  pub window-write :
      (block : ℕ → A) (x : A) (i n j : ℕ)
      → i ≤ limit
      → n ≤ limit
      → j ≡ (i + n) % suc limit
      → window (write j x block) i (suc n) ≡ window block i n ++ (x ∷ [])
  unfolding write
  window-write block x i zero j hi hn e =
      rw (eq→== i j (omega (arith, wrap_cases limit (i + 0) (omega arith))))
  window-write block x i (suc n) j hi hn e =
      ap₂ ◌∷◌
        (rw (ne→==_false i j (λ p. away limit i (suc n) hi (omega arith) hn (sym (p ∙ e)))) refl)
        (window-write block x ((i + 1) % suc limit) n j (omega arith) (omega arith) (e ∙ shift))
    where
      shift : (i + suc n) % suc limit ≡ ((i + 1) % suc limit + n) % suc limit
      shift = rw mod-add-mod (ap (λ k. k % suc limit) (omega arith))

  module _ {q : Queue A} (v : IsValid q) where
    -- The distance from `tail` to `head`, going round.
    pub count_cases :
        ((q.tail ≤ q.head) × (count_of limit q.tail q.head ≡ q.head - q.tail))
        ⊎ ((q.head < q.tail) × (count_of limit q.tail q.head ≡ q.head + suc limit - q.tail))
    count_cases = omega (arith, wrap_cases limit (q.head + suc limit - q.tail) (omega arith))

    -- The test by indices fires only at a ring with one free cell.
    meets_tail-full :
        (promotes : Bool)
        → meets_tail promotes limit q ≡ true
        → count_of limit q.tail q.head ≡ limit
    unfolding meets_tail
    meets_tail-full promotes h = ground (arith, count_cases)

    pub count-push :
        count_of limit q.tail q.head < limit
        → count_of limit q.tail ((q.head + 1) % suc limit) ≡ count_of limit q.tail q.head + 1
    count-push h = omega (
      arith,
      count_cases,
      wrap_cases limit (q.head + 1) (omega arith),
      wrap_cases limit ((q.head + 1) % suc limit + suc limit - q.tail) (omega arith),
    )

    pub count-pop :
        q.tail ≢ q.head
        → suc (count_of limit ((q.tail + 1) % suc limit) q.head) ≡ count_of limit q.tail q.head
    count-pop h = omega (
      arith,
      count_cases,
      wrap_cases limit (q.tail + 1) (omega arith),
      wrap_cases limit (q.head + suc limit - (q.tail + 1) % suc limit) (omega arith),
    )

    pub head_is_end : q.head ≡ (q.tail + count_of limit q.tail q.head) % suc limit
    head_is_end =
        omega (
          arith,
          count_cases,
          wrap_cases limit (q.tail + count_of limit q.tail q.head) (omega arith),
        )

    pub length-contents : length (contents q) ≡ count_of limit q.tail q.head
    length-contents = length-window q.block q.tail (count_of limit q.tail q.head)

  -- `window` matches on the number of elements, the code compares indices.
  pub window_of_pos :
      (block : ℕ → A) (i n m : ℕ)
      → suc m ≡ n
      → window block i n ≡ block i ∷ window block ((i + 1) % suc limit) m
  window_of_pos block i n m e = rw (← e)

module _ {A : Type 0} (limit : ℕ) where
  -- `pop` takes the oldest element, or fails at the empty ring.
  pub pop_refines :
      {q : Queue A}
      → IsValid limit q
      → let (q', out) = pop limit q in
        ((contents limit q', out) ≡ fifo_pop (contents limit q))
        × IsValid limit q'
        × (q'.max_size ≡ q.max_size)
  unfolding pop fifo_pop
  pop_refines {q} v = ground (
    arith,
    count_cases limit v,
    count-pop limit v,
    window_of_pos limit q.block q.tail (count_of limit q.tail q.head)
        (count_of limit ((q.tail + 1) % suc limit) q.head),
  )

  pub new-IsValid : (n : ℕ) (made : A) → n ≤ limit → IsValid limit (new n made)
  unfolding new
  new-IsValid n made h = record {
    tail_in = omega arith;
    head_in = omega arith;
    cap_in = h;
    within = omega (arith, wrap_cases limit (0 + suc limit - 0) (omega arith));
  }

module _ {A : Type 0} (promotes : Bool) (limit : ℕ) where
  -- `push` answers and stores as the bounded queue of `max_size` elements does, and keeps the ring
  -- valid, for every `max_size` that the index type can count.
  pub push_refines :
      {q : Queue A} (x : A)
      → IsValid limit q
      → let (q', done) = push promotes limit q x in
        ((contents limit q', done) ≡ fifo_push q.max_size (contents limit q) x)
        × IsValid limit q'
        × (q'.max_size ≡ q.max_size)
  unfolding push fifo_push
  push_refines {q} x v = ground (
    arith,
    count_cases limit v,
    meets_tail-full limit v promotes,
    count-push limit v,
    length-contents limit v,
    window-write limit q.block x q.tail (count_of limit q.tail q.head) q.head,
    head_is_end limit v,
  )
