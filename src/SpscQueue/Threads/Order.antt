-- ===== src/SpscQueue/Threads/Order.antt =====
-- What holds however the two threads of a ring are interleaved.
use native.Mathlib.Nat.{mod-add-mod}
use mathlib.Core.Path.{ap₂}
use footstone.Base.Store.{write, write_same, write_ne}
use footstone.Base.{
  ℕ, zero, suc, ◌+◌, ◌-◌, ◌%◌, ◌≤◌, ◌<◌, ◌≡◌, ◌≢◌, refl, sym, ap, ◌∙◌, Bool, false, List, [], ◌∷◌,
  ◌++◌, append_assoc, arith,
}
use footstone.SpscQueue.{Queue, new}
use footstone.SpscQueue.Refine.{
  count_of, wrap_cases, IsValid, window, away, contents, new-IsValid, count_cases, count-push,
  count-pop, head_is_end, window_of_pos,
}
use footstone.SpscQueue.Threads.{
  Producer, outside, has_head, has_both, stored, Consumer, resting, has_tail, not_empty, copied,
  State, refuses, Step, load_head, load_tail, refuse, store, add_head, begin_pop, find_empty,
  find_more, copy, add_tail, start, Reach, begin, next,
}

module _ {A : Type 0} (limit : ℕ) where
  abbrev pub count : Queue A → ℕ
  count q = count_of limit q.tail q.head

  -- What the locals of `push` say about the ring: a tail that was loaded may be behind the present one,
  -- which only makes the ring look fuller.
  abbrev pub ProducerKnows : Queue A → Producer A → Type 0
  ProducerKnows q outside = Unit {0}
  ProducerKnows q (has_head val h) = h ≡ q.head
  ProducerKnows q (has_both val h t) = (h ≡ q.head) × (t ≤ limit) × (count q ≤ count_of limit t h)
  ProducerKnows q (stored val) = (q.block q.head ≡ val) × (count q < q.max_size)

  abbrev pub ConsumerKnows : Queue A → Consumer A → Type 0
  ConsumerKnows q resting = Unit {0}
  ConsumerKnows q (has_tail t) = t ≡ q.tail
  ConsumerKnows q (not_empty t) = (t ≡ q.tail) × (0 < count q)
  ConsumerKnows q (copied val) = (q.block q.tail ≡ val) × (0 < count q)

  pub record Inv (s : State A) : Type 0 where
    pub valid : IsValid limit s.queue
    pub knows_head : ProducerKnows s.queue s.producer
    pub knows_tail : ConsumerKnows s.queue s.consumer
    pub order : s.sent ≡ s.received ++ contents limit s.queue

module _ {A : Type 0} (limit : ℕ) where
  -- The cell behind a window is not in it.
  window-write_end :
      (block : ℕ → A) (x : A) (i n j : ℕ)
      → i ≤ limit
      → n ≤ limit
      → j ≡ (i + n) % suc limit
      → window limit (write j x block) i n ≡ window limit block i n
  window-write_end block x i zero j hi hn e = refl
  window-write_end block x i (suc n) j hi hn e =
      ap₂ ◌∷◌ (write_ne j x block i (λ p. away limit i (suc n) hi (omega arith) hn (sym (p ∙ e))))
        (window-write_end block x ((i + 1) % suc limit) n j (omega arith) (omega arith) (e ∙ shift))
    where
      shift : (i + suc n) % suc limit ≡ ((i + 1) % suc limit + n) % suc limit
      shift = rw mod-add-mod (ap (λ k. k % suc limit) (omega arith))

  window-snoc :
      (block : ℕ → A) (i n j : ℕ)
      → i ≤ limit
      → j ≡ (i + n) % suc limit
      → window limit block i (suc n) ≡ window limit block i n ++ (block j ∷ [])
  window-snoc block i zero j hi e =
      ap (λ k. block k ∷ []) (omega (arith, wrap_cases limit (i + 0) (omega arith)))
  window-snoc block i (suc n) j hi e =
      ap (λ l. block i ∷ l) (window-snoc block ((i + 1) % suc limit) n j (omega arith) (e ∙ shift))
    where
      shift : (i + suc n) % suc limit ≡ ((i + 1) % suc limit + n) % suc limit
      shift = rw mod-add-mod (ap (λ k. k % suc limit) (omega arith))

  -- The cells that `copied` and `stored` speak of are different ones.
  pub apart : (q : Queue A) → IsValid limit q → 0 < count limit q → q.tail ≢ q.head
  apart q v pos = omega (arith, count_cases limit v)

  stored_contents :
      (q : Queue A) (val : A)
      → IsValid limit q
      → contents limit (record q { block = write q.head val q.block }) ≡ contents limit q
  stored_contents q val v =
      window-write_end q.block val q.tail (count limit q) q.head v.tail_in
        (omega (arith, v.within, v.cap_in)) (head_is_end limit v)

  added_contents :
      (q : Queue A)
      → IsValid limit q
      → count limit q < q.max_size
      → contents limit (record q { head = (q.head + 1) % suc limit })
        ≡ contents limit q ++ (q.block q.head ∷ [])
  added_contents q v less =
      ap (window limit q.block q.tail) {y = suc (count limit q)}
        (omega (arith, count-push limit v (omega arith)))
      ∙ window-snoc q.block q.tail (count limit q) q.head v.tail_in (head_is_end limit v)

  taken_contents :
      (q : Queue A)
      → IsValid limit q
      → 0 < count limit q
      → contents limit q
        ≡ q.block q.tail ∷ contents limit (record q { tail = (q.tail + 1) % suc limit })
  taken_contents q v pos =
      window_of_pos limit q.block q.tail (count limit q) _ (count-pop limit v (apart q v pos))

  -- A step of one thread keeps what the other one knows.
  store-ConsumerKnows :
      (q : Queue A) (val : A) (c : Consumer A)
      → IsValid limit q
      → ConsumerKnows limit q c
      → ConsumerKnows limit (record q { block = write q.head val q.block }) c
  store-ConsumerKnows q val resting v k = tt
  store-ConsumerKnows q val (has_tail t) v k = k
  store-ConsumerKnows q val (not_empty t) v k = k
  store-ConsumerKnows q val (copied x) v (e, pos) =
      (write_ne q.head val q.block q.tail (apart q v pos) ∙ e, pos)

  add-ConsumerKnows :
      (q : Queue A) (c : Consumer A)
      → IsValid limit q
      → count limit q < q.max_size
      → ConsumerKnows limit q c
      → ConsumerKnows limit (record q { head = (q.head + 1) % suc limit }) c
  add-ConsumerKnows q resting v less k = tt
  add-ConsumerKnows q (has_tail t) v less k = k
  add-ConsumerKnows q (not_empty t) v less (e, pos) =
      (e, omega (arith, count-push limit v (omega (arith, v.cap_in))))
  add-ConsumerKnows q (copied x) v less (e, pos) =
      (e, omega (arith, count-push limit v (omega (arith, v.cap_in))))

  take-ProducerKnows :
      (q : Queue A) (p : Producer A)
      → IsValid limit q
      → 0 < count limit q
      → ProducerKnows limit q p
      → ProducerKnows limit (record q { tail = (q.tail + 1) % suc limit }) p
  take-ProducerKnows q outside v pos k = tt
  take-ProducerKnows q (has_head val h) v pos k = k
  take-ProducerKnows q (has_both val h t) v pos (e, l, k) =
      (e, l, omega (arith, count-pop limit v (apart q v pos)))
  take-ProducerKnows q (stored val) v pos (e, less) =
      (e, omega (arith, count-pop limit v (apart q v pos)))

  add-IsValid :
      (q : Queue A)
      → IsValid limit q
      → count limit q < q.max_size
      → IsValid limit (record q { head = (q.head + 1) % suc limit })
  add-IsValid q v less = record {
    tail_in = v.tail_in;
    head_in = omega (arith, wrap_cases limit (q.head + 1) (omega (arith, v.head_in)));
    cap_in = v.cap_in;
    within = omega (arith, count-push limit v (omega (arith, v.cap_in)));
  }

  take-IsValid :
      (q : Queue A)
      → IsValid limit q
      → 0 < count limit q
      → IsValid limit (record q { tail = (q.tail + 1) % suc limit })
  take-IsValid q v pos = record {
    tail_in = omega (arith, wrap_cases limit (q.tail + 1) (omega (arith, v.tail_in)));
    head_in = v.head_in;
    cap_in = v.cap_in;
    within = omega (arith, v.within, count-pop limit v (apart q v pos));
  }

module _ {A : Type 0} (promotes : Bool) (limit : ℕ) where
  pub room :
      (q : Queue A) (h t : ℕ)
      → IsValid limit q
      → refuses promotes limit q h t ≡ false
      → count_of limit t h < q.max_size
  unfolding refuses
  room q h t v e = ground arith

  abbrev rest : State A → List A
  rest s = contents limit (record s.queue { tail = (s.queue.tail + 1) % suc limit })

  Step-Inv : {s s' : State A} → Step promotes limit s s' → Inv limit s → Inv limit s'
  Step-Inv {s} (load_head val e) inv = record {
    valid = inv.valid;
    knows_head = refl;
    knows_tail = inv.knows_tail;
    order = inv.order;
  }
  Step-Inv {s} (load_tail {val} {h} e) inv = record {
    valid = inv.valid;
    knows_head = (ground arith, inv.valid.tail_in, ground arith);
    knows_tail = inv.knows_tail;
    order = inv.order;
  }
  Step-Inv (refuse e r) inv = record {
    valid = inv.valid;
    knows_head = tt;
    knows_tail = inv.knows_tail;
    order = inv.order;
  }
  Step-Inv {s} (store {val} {h} {t} e r) inv =
      let at_head : h ≡ s.queue.head = ground arith in
      let less : count limit s.queue < s.queue.max_size =
        ground (arith, room s.queue h t inv.valid r) in
      rw at_head (record {
        valid = record {
          tail_in = inv.valid.tail_in;
          head_in = inv.valid.head_in;
          cap_in = inv.valid.cap_in;
          within = inv.valid.within;
        };
        knows_head = (write_same s.queue.head val s.queue.block, less);
        knows_tail = store-ConsumerKnows limit s.queue val s.consumer inv.valid inv.knows_tail;
        order =
            inv.order
            ∙ ap (λ l. s.received ++ l) (sym (stored_contents limit s.queue val inv.valid));
      })
  Step-Inv {s} (add_head {val} e) inv =
      let less : count limit s.queue < s.queue.max_size = ground arith in
      let at_head : s.queue.block s.queue.head ≡ val = ground arith in
      record {
        valid = add-IsValid limit s.queue inv.valid less;
        knows_head = tt;
        knows_tail = add-ConsumerKnows limit s.queue s.consumer inv.valid less inv.knows_tail;
        order =
            ap (λ l. l ++ (val ∷ [])) inv.order
            ∙ append_assoc s.received (contents limit s.queue) (val ∷ [])
            ∙ ap (λ x. s.received ++ (contents limit s.queue ++ (x ∷ []))) (sym at_head)
            ∙ ap (λ l. s.received ++ l) (sym (added_contents limit s.queue inv.valid less));
      }
  Step-Inv (begin_pop e) inv = record {
    valid = inv.valid;
    knows_head = inv.knows_head;
    knows_tail = refl;
    order = inv.order;
  }
  Step-Inv (find_empty e z) inv = record {
    valid = inv.valid;
    knows_head = inv.knows_head;
    knows_tail = tt;
    order = inv.order;
  }
  Step-Inv {s} (find_more {t} e nz) inv = record {
    valid = inv.valid;
    knows_head = inv.knows_head;
    knows_tail = ground (arith, count_cases limit inv.valid);
    order = inv.order;
  }
  Step-Inv {s} (copy {t} e) inv = record {
    valid = inv.valid;
    knows_head = inv.knows_head;
    knows_tail = ground arith;
    order = inv.order;
  }
  Step-Inv {s} (add_tail {val} e) inv =
      let pos : 0 < count limit s.queue = ground arith in
      let at_tail : s.queue.block s.queue.tail ≡ val = ground arith in
      record {
        valid = take-IsValid limit s.queue inv.valid pos;
        knows_head = take-ProducerKnows limit s.queue s.producer inv.valid pos inv.knows_head;
        knows_tail = tt;
        order =
            inv.order
            ∙ ap (λ l. s.received ++ l) (taken_contents limit s.queue inv.valid pos)
            ∙ ap (λ x. s.received ++ (x ∷ rest s)) at_tail
            ∙ sym (append_assoc s.received (val ∷ []) (rest s));
      }

  new-contents : (max_size : ℕ) (made : A) → contents limit (new max_size made) ≡ []
  unfolding new
  new-contents max_size made =
      ap (window limit (λ _. made) 0) {y = 0}
        (omega (arith, wrap_cases limit (0 + suc limit - 0) (omega arith)))

  start-Inv :
      (max_size : ℕ) (made : A) → max_size ≤ limit → Inv limit (start promotes limit max_size made)
  unfolding start
  start-Inv max_size made h = record {
    valid = new-IsValid limit max_size made h;
    knows_head = tt;
    knows_tail = tt;
    order = sym (new-contents max_size made);
  }

  pub Reach-Inv :
      {max_size : ℕ} {made : A} {s : State A}
      → max_size ≤ limit
      → Reach promotes limit max_size made s
      → Inv limit s
  Reach-Inv {max_size} {made} h begin = start-Inv max_size made h
  Reach-Inv h (next r st) = Step-Inv st (Reach-Inv h r)
