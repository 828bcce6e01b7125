-- ===== src/MpmcQueue/Refine.antt =====
-- Between the calls, the ring of mpmc_queue.h is a bounded queue too, of one element less than `max_size`.
use mathlib.Core.Path.{fun_ext}
use mathlib.Core.List.{map-append}
use footstone.Base.Store.{write, write_same}
use footstone.Base.{
  ℕ, suc, ◌+◌, ◌-◌, ◌%◌, ◌≤◌, ◌<◌, ◌≡◌, ◌≢◌, refl, sym, ap, ◌∙◌, inl, inr, Bool, true, false,
  Option, none, some, List, [], ◌∷◌, ◌++◌, map, length, arith, Bool-cases, ne→==_false, eq→==, ◌==◌,
  ltb, ltb→lt, length-map, le→leb, lt→leb_false,
}
use footstone.Base.Fifo.{fifo_push, fifo_pop}
use footstone.SpscQueue
use footstone.SpscQueue.{Queue}
use footstone.SpscQueue.Refine.{
  IsValid, count_of, count_cases, count-push, contents, window, window-write, head_is_end,
  length-contents, pop_refines, wrap_cases, new-IsValid,
}
use footstone.MpmcQueue.{Ring, Node, new, publish, push, pop, invalid_index}

write_twice :
    {B : Type 0} (at : ℕ) (x y : B) (cells : ℕ → B)
    → write at x (write at y cells) ≡ write at x cells
unfolding write
write_twice at x y cells = fun_ext (λ i. ground arith)

module _ {A : Type 0} where
  abbrev data_of : Option (Node A) → Option A
  data_of none = none
  data_of (some node) = some node.data_

  fifo_pop-map :
      (l : List (Node A))
      → (map (λ node. node.data_) (fifo_pop l).0, data_of (fifo_pop l).1)
        ≡ fifo_pop (map (λ node. node.data_) l)
  unfolding fifo_pop
  fifo_pop-map [] = refl
  fifo_pop-map (node ∷ l) = refl

  pop-head :
      (limit : ℕ) (q : Queue (Node A))
      → ((SpscQueue.pop limit q).0.head ≡ q.head) × ((SpscQueue.pop limit q).0.block ≡ q.block)
  unfolding SpscQueue.pop
  pop-head limit q = elim (Bool-cases (q.tail == q.head)) [
    | inl e ↦ rw e (refl, refl)
    | inr e ↦ rw e (refl, refl)
  ]

module _ {A : Type 0} (limit : ℕ) where
  -- No call is under way: every index that was handed out is published, and no cell says that it is ready.
  pub record IsQuiet (q : Ring A) : Type 0 where
    pub ring_valid : IsValid limit q.super
    pub all_published : q.flag_ ≡ q.super.head
    pub none_ready : (i : ℕ) → i ≤ limit → (q.super.block i).flag ≢ i

  abbrev pub elements : Ring A → List A
  elements q = map (λ node. node.data_) (contents limit q.super)

  pub new-IsQuiet : (n : ℕ) (made : A) → n ≤ limit → limit < invalid_index → IsQuiet (new n made)
  unfolding new SpscQueue.new
  new-IsQuiet n made h small = record {
    ring_valid = new-IsValid limit n _ h;
    all_published = refl;
    none_ready = λ i le e. omega (arith, e);
  }

  -- `pop` is that of spsc_queue.h, and takes the element out of its cell.
  pub pop_alone :
      (q : Ring A) (rounds : ℕ)
      → IsQuiet q
      → pop limit (suc rounds) q
        ≡ some (
          record q { super = (SpscQueue.pop limit q.super).0 },
          data_of (SpscQueue.pop limit q.super).1,
        )
  unfolding pop SpscQueue.pop
  pop_alone q rounds v = elim (Bool-cases (q.super.tail == q.super.head)) [
    | inl e ↦
        rw
          (
            e,
            ne→==_false (q.super.block q.super.head).flag q.super.head
                (v.none_ready q.super.head v.ring_valid.head_in),
          )
          refl
    | inr e ↦ rw e refl
  ]

  -- The cell after it is written and published.
  abbrev pub stored : Ring A → A → Ring A
  stored q val =
      let next_flag = (q.flag_ + 1) % suc limit in
      record {
        super = record q.super {
          block = write q.flag_ (record { data_ = val; flag = invalid_index }) q.super.block;
          head = next_flag;
        };
        flag_ = next_flag;
      }

  publish_alone :
      (q : Ring A) (val : A) (rounds : ℕ)
      → IsQuiet q
      → 0 < limit
      → publish limit (suc (suc rounds)) q.flag_ (record q {
        super = record q.super {
          block = write q.flag_ (record { data_ = val; flag = q.flag_ }) q.super.block;
        };
        flag_ = (q.flag_ + 1) % suc limit;
      })
        ≡ some (stored q val)
  unfolding publish
  publish_alone q val rounds v pos =
      let at = q.flag_ in
      let next_flag = (at + 1) % suc limit in
      let node : Node A = record { data_ = val; flag = at } in
      let turn = wrap_cases limit (at + 1) (omega (arith, v.all_published, v.ring_valid.head_in)) in
      let other : next_flag ≢ at = λ e. omega (arith, e, turn) in
      let low : next_flag ≤ limit = omega (arith, turn, v.all_published, v.ring_valid.head_in) in
      rw
        (
          eq→== at q.super.head v.all_published,
          write_same at node q.super.block,
          eq→== at at refl,
          eq→== next_flag next_flag refl,
          write_twice at (record { data_ = val; flag = invalid_index }) node q.super.block,
          ne→==_false next_flag at other,
          ne→==_false (q.super.block next_flag).flag next_flag (v.none_ready next_flag low),
        )
        refl

  -- The ring counts one more.
  count-stored :
      (q : Ring A)
      → IsQuiet q
      → count_of limit q.super.tail q.super.head < limit
      → count_of limit q.super.tail ((q.flag_ + 1) % suc limit)
        ≡ suc (count_of limit q.super.tail q.super.head)
  count-stored q v room =
      ap (λ h. count_of limit q.super.tail ((h + 1) % suc limit)) v.all_published
      ∙ count-push limit v.ring_valid room
      ∙ omega arith

  stored-IsQuiet :
      (q : Ring A) (val : A)
      → IsQuiet q
      → limit < invalid_index
      → count_of limit q.super.tail q.super.head < q.super.max_size
      → IsQuiet (stored q val)
  unfolding write
  stored-IsQuiet q val v small room =
      let r = v.ring_valid in
      record {
        ring_valid = record {
          tail_in = r.tail_in;
          head_in = omega (
            arith,
            v.all_published,
            r.head_in,
            wrap_cases limit (q.flag_ + 1) (omega (arith, v.all_published, r.head_in)),
          );
          cap_in = r.cap_in;
          within = omega (arith, count-stored q v (omega (arith, r.cap_in)));
        };
        all_published = refl;
        none_ready = λ i le. elim (Bool-cases (i == q.flag_)) [
          | inl e ↦ rw e (λ f. omega (arith, f))
          | inr e ↦ rw e (v.none_ready i le)
        ];
      }

  pub elements-stored :
      (q : Ring A) (val : A)
      → IsQuiet q
      → count_of limit q.super.tail q.super.head < limit
      → elements (stored q val) ≡ elements q ++ (val ∷ [])
  elements-stored q val v room =
      let node : Node A = record { data_ = val; flag = invalid_index } in
      let n = count_of limit q.super.tail q.super.head in
      let all =
        window-write limit q.super.block node q.super.tail n q.flag_ v.ring_valid.tail_in
          (omega arith) (v.all_published ∙ head_is_end limit v.ring_valid) in
      ap (map (λ node. node.data_)) (
        ap (window limit (write q.flag_ node q.super.block) q.super.tail) (count-stored q v room)
        ∙ all)
      ∙ map-append (λ node. node.data_) (contents limit q.super) (node ∷ [])

  pub length-elements :
      (q : Ring A) → IsQuiet q → length (elements q) ≡ count_of limit q.super.tail q.super.head
  length-elements q v =
      length-map (contents limit q.super) (λ node. node.data_) ∙ length-contents limit v.ring_valid

  pub push_takes :
      (q : Ring A) (x : A) (rounds : ℕ)
      → IsQuiet q
      → count_of limit q.super.tail q.super.head < q.super.max_size - 1
      → push limit (suc (suc rounds)) q x ≡ some (stored q x, true)
  unfolding push
  push_takes q x rounds v room =
      let next_flag = (q.flag_ + 1) % suc limit in
      let more = count-stored q v (omega (arith, v.ring_valid.cap_in)) in
      let apart : next_flag ≢ q.super.tail = λ e. omega (
        arith,
        e,
        more,
        wrap_cases limit (next_flag + suc limit - q.super.tail)
            (omega (arith, e, v.ring_valid.tail_in)),
      ) in
      rw
        (
          ne→==_false next_flag q.super.tail apart,
          lt→leb_false q.super.max_size (count_of limit q.super.tail next_flag)
              (omega (arith, more)),
          publish_alone q x rounds v (omega (arith, v.ring_valid.cap_in)),
        )
        refl

  -- Where the next index is not the tail, there is a free cell at least.
  free_cell :
      (q : Ring A)
      → IsQuiet q
      → ((q.flag_ + 1) % suc limit == q.super.tail) ≡ false
      → count_of limit q.super.tail q.super.head < limit
  free_cell q v apart =
      let differs : (q.flag_ + 1) % suc limit ≢ q.super.tail =
        λ e. cc (eq→== ((q.flag_ + 1) % suc limit) q.super.tail e) in
      let r = v.ring_valid in
      omega (
        arith,
        differs,
        v.all_published,
        count_cases limit r,
        r.within,
        r.cap_in,
        wrap_cases limit (q.flag_ + 1) (omega (arith, v.all_published, r.head_in)),
      )

  pub push_refuses :
      (q : Ring A) (x : A) (rounds : ℕ)
      → IsQuiet q
      → q.super.max_size - 1 ≤ count_of limit q.super.tail q.super.head
      → push limit rounds q x ≡ some (q, false)
  unfolding push
  push_refuses q x rounds v full = elim (Bool-cases ((q.flag_ + 1) % suc limit == q.super.tail)) [
    | inl e ↦ rw e refl
    | inr e ↦
        rw
          (
            e,
            le→leb q.super.max_size (count_of limit q.super.tail ((q.flag_ + 1) % suc limit))
                (let more = count-stored q v (free_cell q v e) in omega (arith, more)),
          )
          refl
  ]

  -- `push` answers and stores as the bounded queue of `max_size - 1` elements does: an element fewer than
  -- the parameter says. Two rounds of its last loop are enough.
  pub push_as_fifo :
      (q : Ring A) (x : A) (rounds : ℕ)
      → IsQuiet q
      → limit < invalid_index
      → (q' : Ring A) × (done : Bool) × (push limit (suc (suc rounds)) q x ≡ some (q', done))
        × ((elements q', done) ≡ fifo_push (q.super.max_size - 1) (elements q) x)
        × IsQuiet q'
        × (q'.super.max_size ≡ q.super.max_size)
  unfolding fifo_push
  push_as_fifo q x rounds v small =
      elim (Bool-cases (ltb (length (elements q)) (q.super.max_size - 1))) [
        | inl e ↦
            let room : count_of limit q.super.tail q.super.head < q.super.max_size - 1 =
              omega (
                arith,
                length-elements q v,
                ltb→lt (length (elements q)) (q.super.max_size - 1) e,
              ) in
            (
              stored q x,
              true,
              push_takes q x rounds v room,
              rw (e, elements-stored q x v (omega (arith, v.ring_valid.cap_in))) refl,
              stored-IsQuiet q x v small (omega arith),
              refl,
            )
        | inr e ↦
            let full : q.super.max_size - 1 ≤ length (elements q) = ground arith in
            (
              q,
              false,
              push_refuses q x (suc (suc rounds)) v (omega (arith, length-elements q v)),
              rw e refl,
              v,
              refl,
            )
      ]

  -- `pop` takes the oldest element, or fails at the empty ring; one round is enough.
  pub pop_as_fifo :
      (q : Ring A) (rounds : ℕ)
      → IsQuiet q
      → (q' : Ring A) × (out : Option A) × (pop limit (suc rounds) q ≡ some (q', out))
        × ((elements q', out) ≡ fifo_pop (elements q))
        × IsQuiet q'
        × (q'.super.max_size ≡ q.super.max_size)
  pop_as_fifo q rounds v =
      let (as_fifo, valid, cap) = pop_refines limit v.ring_valid in
      let (head, block) = pop-head limit q.super in
      (
        record q { super = (SpscQueue.pop limit q.super).0 },
        data_of (SpscQueue.pop limit q.super).1,
        pop_alone q rounds v,
        ap (λ p. (map (λ node. node.data_) p.0, data_of p.1)) as_fifo
            ∙ fifo_pop-map (contents limit q.super),
        record {
          ring_valid = valid;
          all_published = v.all_published ∙ sym head;
          none_ready = λ i le. rw block (v.none_ready i le);
        },
        cap,
      )
