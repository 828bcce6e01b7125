-- ===== src/SpscQueue/Threads/Alone.antt =====
-- include/footstone/spsc_queue.h: how a call of one thread ends while the other thread takes no step.
use footstone.Base.{
  ℕ, suc, none, some, leb, ◌+◌, ◌-◌, ◌%◌, ◌≤◌, ◌≡◌, refl, sym, inl, inr, Bool, true, false, List,
  [], ◌∷◌, ◌++◌, append-nil, Bool-cases, ==_iff, arith, ◌==◌, if◌then◌else◌,
}
use footstone.Base.Store.{write}
use footstone.SpscQueue.{Queue, push, pop, meets_tail}
use footstone.SpscQueue.Threads.{
  Producer, outside, has_head, has_both, stored, Consumer, resting, has_tail, not_empty, copied,
  State, refuses, Step, load_head, load_tail, refuse, store, add_head, begin_pop, find_empty,
  find_more, copy, add_tail,
}

module _ {A : Type 0} (promotes : Bool) (limit : ℕ) where
  -- Whether a step is the producer's.
  abbrev pub is_push : {s t : State A} → Step promotes limit s t → Bool
  is_push (load_head val e) = true
  is_push (load_tail e) = true
  is_push (refuse e r) = true
  is_push (store e r) = true
  is_push (add_head e) = true
  is_push (begin_pop e) = false
  is_push (find_empty e z) = false
  is_push (find_more e nz) = false
  is_push (copy e) = false
  is_push (add_tail e) = false

  -- So many steps, all of the producer (`true`) or all of the consumer (`false`).
  pub data Turn (producer : Bool) : ℕ → State A → State A → Type 0 where
    done : {s : State A} → Turn producer 0 s s
    also :
        {n : ℕ} {s t u : State A} (st : Step promotes limit s t)
        → is_push st ≡ producer
        → Turn producer n t u
        → Turn producer (suc n) s u

  -- What a call of `push` has still to push when its thread goes on alone: nothing where its tests refuse
  -- what it has loaded and will load.
  abbrev pub push_left : Queue A → Producer A → List A
  push_left q outside = []
  push_left q (has_head val h) = if refuses promotes limit q h q.tail then [] else val ∷ []
  push_left q (has_both val h t) = if refuses promotes limit q h t then [] else val ∷ []
  push_left q (stored val) = val ∷ []

  -- What a call of `pop` has still to pop.
  abbrev pub pop_left : Queue A → Consumer A → List A
  pop_left q resting = []
  pop_left q (has_tail t) = if t == q.head then [] else q.block t ∷ []
  pop_left q (not_empty t) = q.block t ∷ []
  pop_left q (copied val) = val ∷ []

  -- The producer goes on alone until its call has ended.
  abbrev pub PushEnds : State A → Type 0
  PushEnds s =
      (n : ℕ) × (t : State A) × Turn true n s t
      × (n ≤ 3)
      × (t.producer ≡ outside)
      × (t.consumer ≡ s.consumer)
      × (t.received ≡ s.received)
      × (t.sent ≡ s.sent ++ push_left s.queue s.producer)

  abbrev pub PopEnds : State A → Type 0
  PopEnds s =
      (n : ℕ) × (t : State A) × Turn false n s t
      × (n ≤ 3)
      × (t.consumer ≡ resting)
      × (t.producer ≡ s.producer)
      × (t.sent ≡ s.sent)
      × (t.received ≡ s.received ++ pop_left s.queue s.consumer)

  push_ends : (s : State A) (p : Producer A) → s.producer ≡ p → PushEnds s
  push_ends s outside e = (0, s, done, omega arith, e, refl, refl, rw e (sym (append-nil s.sent)))
  push_ends s (has_head val h) e =
      elim (Bool-cases (refuses promotes limit s.queue h s.queue.tail)) [
        | inl full ↦ (
          2,
          _,
          also (load_tail e) refl (also (refuse refl full) refl done),
          omega arith,
          refl,
          refl,
          refl,
          rw (e, full) (sym (append-nil s.sent)),
        )
        | inr free ↦ (
          3,
          _,
          also (load_tail e) refl (also (store refl free) refl (also (add_head refl) refl done)),
          omega arith,
          refl,
          refl,
          refl,
          rw (e, free),
        )
      ]
  push_ends s (has_both val h t) e = elim (Bool-cases (refuses promotes limit s.queue h t)) [
    | inl full ↦ (
      1,
      _,
      also (refuse e full) refl done,
      omega arith,
      refl,
      refl,
      refl,
      rw (e, full) (sym (append-nil s.sent)),
    )
    | inr free ↦ (
      2,
      _,
      also (store e free) refl (also (add_head refl) refl done),
      omega arith,
      refl,
      refl,
      refl,
      rw (e, free),
    )
  ]
  push_ends s (stored val) e =
      (1, _, also (add_head e) refl done, omega arith, refl, refl, refl, rw e)

  pop_ends : (s : State A) (c : Consumer A) → s.consumer ≡ c → PopEnds s
  pop_ends s resting e =
      (0, s, done, omega arith, e, refl, refl, rw e (sym (append-nil s.received)))
  pop_ends s (has_tail t) e = elim (Bool-cases (t == s.queue.head)) [
    | inl same ↦ (
      1,
      _,
      also (find_empty e ((==_iff t s.queue.head).0 same)) refl done,
      omega arith,
      refl,
      refl,
      refl,
      rw (e, same) (sym (append-nil s.received)),
    )
    | inr other ↦ (
      3,
      _,
      also (find_more e (ground arith)) refl
          (also (copy refl) refl (also (add_tail refl) refl done)),
      omega arith,
      refl,
      refl,
      refl,
      rw (e, other),
    )
  ]
  pop_ends s (not_empty t) e = (
    2,
    _,
    also (copy e) refl (also (add_tail refl) refl done),
    omega arith,
    refl,
    refl,
    refl,
    rw e,
  )
  pop_ends s (copied val) e =
      (1, _, also (add_tail e) refl done, omega arith, refl, refl, refl, rw e)

  -- A whole call of `push` whose thread alone takes steps does what the function does.
  abbrev pub PushesAlone : State A → A → Type 0
  PushesAlone s val =
      let (q, pushed) = push promotes limit s.queue val in
      (n : ℕ) × (t : State A) × Turn true n s t
      × (n ≤ 4)
      × (t.producer ≡ outside)
      × (t.consumer ≡ s.consumer)
      × (t.queue ≡ q)
      × (t.sent ≡ (if pushed then s.sent ++ (val ∷ []) else s.sent))

  -- So does one of `pop`.
  abbrev pub PopsAlone : State A → Type 0
  PopsAlone s =
      let (q, x) = pop limit s.queue in
      (n : ℕ) × (t : State A) × Turn false n s t
      × (n ≤ 4)
      × (t.consumer ≡ resting)
      × (t.producer ≡ s.producer)
      × (t.queue ≡ q)
      × (t.received ≡ (elim x [ none ↦ s.received | some val ↦ s.received ++ (val ∷ []) ]))

  push-refused :
      (q : Queue A) (val : A)
      → refuses promotes limit q q.head q.tail ≡ true
      → push promotes limit q val ≡ (q, false)
  unfolding refuses push
  push-refused q val e = elim (Bool-cases (meets_tail promotes limit q)) [
    | inl m ↦ rw m refl
    | inr m ↦ elim (Bool-cases (leb q.max_size ((q.head + suc limit - q.tail) % suc limit))) [
      | inl l ↦ rw (m, l) refl
      | inr l ↦ absurd (cc (e, m, l))
    ]
  ]

  push-accepted :
      (q : Queue A) (val : A)
      → refuses promotes limit q q.head q.tail ≡ false
      → push promotes limit q val
        ≡ (record q { block = write q.head val q.block; head = (q.head + 1) % suc limit }, true)
  unfolding refuses push
  push-accepted q val e = elim (Bool-cases (meets_tail promotes limit q)) [
    | inl m ↦ absurd (cc (e, m))
    | inr m ↦ elim (Bool-cases (leb q.max_size ((q.head + suc limit - q.tail) % suc limit))) [
      | inl l ↦ absurd (cc (e, m, l))
      | inr l ↦ rw (m, l) refl
    ]
  ]

  pushes_alone : (s : State A) (val : A) → s.producer ≡ outside → PushesAlone s val
  pushes_alone s val e =
      elim (Bool-cases (refuses promotes limit s.queue s.queue.head s.queue.tail)) [
        | inl full ↦ rw (push-refused s.queue val full) (
          3,
          _,
          also (load_head val e) refl
              (also (load_tail refl) refl (also (refuse refl full) refl done)),
          omega arith,
          refl,
          refl,
          refl,
          refl,
        )
        | inr free ↦ rw (push-accepted s.queue val free) (
          4,
          _,
          also (load_head val e) refl (
              also (load_tail refl) refl
                (also (store refl free) refl (also (add_head refl) refl done))),
          omega arith,
          refl,
          refl,
          refl,
          refl,
        )
      ]

  pops_alone : (s : State A) → s.consumer ≡ resting → PopsAlone s
  unfolding pop
  pops_alone s e = elim (Bool-cases (s.queue.tail == s.queue.head)) [
    | inl same ↦ rw same (
      2,
      _,
      also (begin_pop e) refl
          (also (find_empty refl ((==_iff s.queue.tail s.queue.head).0 same)) refl done),
      omega arith,
      refl,
      refl,
      refl,
      refl,
    )
    | inr other ↦ rw other (
      4,
      _,
      also (begin_pop e) refl (
          also (find_more refl (ground arith)) refl
            (also (copy refl) refl (also (add_tail refl) refl done))),
      omega arith,
      refl,
      refl,
      refl,
      refl,
    )
  ]

  -- From every state, a call of `push` that has begun comes to its end within three steps of its own thread:
  -- it has pushed its value exactly if its tests do not refuse, and the other call stands where it stood. So
  -- does a call of `pop`, which has popped exactly if it does not find the ring empty, what its cell held. A
  -- call that begins and goes on alone leaves, within four steps, the ring and the answer of the function.
  pub calls_end :
      (s : State A)
      → PushEnds s
        × PopEnds s
        × ((val : A) → s.producer ≡ outside → PushesAlone s val)
        × (s.consumer ≡ resting → PopsAlone s)
  calls_end s =
      (push_ends s s.producer refl, pop_ends s s.consumer refl, pushes_alone s, pops_alone s)
