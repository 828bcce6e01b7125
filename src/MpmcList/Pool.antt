-- ===== src/MpmcList/Pool.antt =====
-- The pool of mpmc_list.h: `alloc` answers with a node that nothing else uses, `free` takes one back.
use mathlib.Core.Path.{subst}
use footstone.Base.Count.{count, count-append}
use footstone.Base.Store.{write, write_same, write_ne}
use footstone.Base.{
  ℕ, suc, ◌+◌, ◌<◌, ◌≤◌, ◌≡◌, ◌≢◌, refl, sym, ap, ◌∙◌, Bool, true, false, List, [], ◌∷◌, ◌++◌,
  arith, ◌⊎◌, inl, inr, some, ◌==◌, eq→==, if◌then◌else◌, ne→==_false, Bool-cases,
}
use footstone.MpmcList.{Chained, Node, incr, ptr, add, tagged, take_free, alloc}
use footstone.MpmcList.Tags.{ptr-tagged, compare_exchange-same}
use footstone.MpmcList.Nodes.{
  Chain, Frees, spare, elems, owned, IsQuiet, Chain-same, Frees-same, elems-same,
}

pub ptr-lt : (w : ℕ) → ptr w < incr
unfolding ptr
ptr-lt w = omega arith

count-cases : (x : ℕ) (l : List ℕ) → (count x l ≡ 0) ⊎ (0 < count x l)
count-cases x l = elim (Bool-cases (count x l == 0)) [
  | inl e ↦ inl (ground arith)
  | inr e ↦ inr (ground arith)
]

-- A number of which there is one at most, in front, is not behind.
pub once-apart : (p x : ℕ) (l : List ℕ) → count x (p ∷ l) ≤ 1 → 0 < count x l → x ≢ p
once-apart p x l once behind e = omega (arith, once, behind, twice)
  where
    twice : count x (p ∷ l) ≡ 1 + count x l
    twice = rw (eq→== p x (sym e)) refl

pub one_at_most : (b : Bool) → (if b then 1 else 0) ≤ 1
one_at_most true = omega arith
one_at_most false = omega arith

-- A number above all of a list, put before it.
count-above :
    (n : ℕ) (l : List ℕ) (x : ℕ)
    → (count x l ≤ 1)
    → (0 < count x l → (0 < x) × (x < n))
    → 0 < n
    → (count x (n ∷ l) ≤ 1) × (0 < count x (n ∷ l) → (0 < x) × (x < n + 1))
count-above n l x once made pos = elim (count-cases x l) [
  | inl e ↦ (
    omega (arith, e, one_at_most (n == x)),
    λ h. elim (Bool-cases (n == x)) [
      | inl same ↦ let s : n ≡ x = ground arith in (omega arith, omega arith)
      | inr other ↦ let nothing : 0 < 0 + count x l = rw other at h in absurd (omega (arith, e))
    ],
  )
  | inr h ↦
      let (low, high) = made h in
      let other = ne→==_false n x (λ e. omega (arith, e)) in
      (rw other (omega (arith, once)), λ _. (low, omega arith))
]

module _ {A : Type 0} where
  pub count-owned :
      (x : ℕ) (q : Chained A) (used frees : List ℕ)
      → count x (owned q used frees)
        ≡ count x (ptr q.head ∷ used) + (count x (spare q.el) + count x frees)
  count-owned x q used frees = omega (
    arith,
    count-append x (ptr q.head ∷ used) (spare q.el ++ frees),
    count-append x (spare q.el) frees,
  )

  -- What the search of `alloc` leaves: `p` is owned by nobody else.
  record IsFound (q : Chained A) (used : List ℕ) (q' : Chained A) (p : ℕ) (frees' : List ℕ)
      : Type 0 where
    nodes_same : q'.nodes ≡ q.nodes
    head_same : q'.head ≡ q.head
    tail_same : q'.tail ≡ q.tail
    fresh_near : q'.fresh ≤ q.fresh + 1
    free_chain : Frees q.nodes (ptr q'.cursor) frees'
    once : (x : ℕ) → count x (p ∷ owned q' used frees') ≤ 1
    made : (x : ℕ) → 0 < count x (p ∷ owned q' used frees') → (0 < x) × (x < q'.fresh)

  take_free_lem :
      (rounds : ℕ) (q : Chained A) (used frees : List ℕ)
      → IsQuiet q used frees
      → 0 < q.fresh
      → (q' : Chained A) × (p : ℕ) × (frees' : List ℕ) × (take_free (suc rounds) q.cursor q
          ≡ some (q', p))
        × IsFound q used q' p frees'
  unfolding take_free
  take_free_lem rounds q used [] v pos = (
    record q { fresh = q.fresh + 1 },
    q.fresh,
    [],
    rw (take_free, eq→== (ptr q.cursor) 0 v.free_chain) refl,
    record {
      nodes_same = refl;
      head_same = refl;
      tail_same = refl;
      fresh_near = omega arith;
      free_chain = v.free_chain;
      once = λ x. (count-above q.fresh (owned q used []) x (v.once x) (v.made x) pos).0;
      made = λ x. (count-above q.fresh (owned q used []) x (v.once x) (v.made x) pos).1;
    },
  )
  take_free_lem rounds q used (p ∷ frees) v pos =
      let (here, some_node, later) = v.free_chain in
      let q' : Chained A = record q {
        cursor = tagged (ptr (q.nodes (ptr q.cursor)).link) (add q.cursor);
      } in
      let moved =
        ptr-tagged (ptr (q.nodes (ptr q.cursor)).link) (add q.cursor)
          (ptr-lt (q.nodes (ptr q.cursor)).link)
        ∙ ap (λ z. ptr (q.nodes z).link) here in
      (
        q',
        p,
        frees,
        rw
            (
              take_free,
              ne→==_false (ptr q.cursor) 0 (λ e. some_node (sym here ∙ e)),
              compare_exchange-same q.cursor (ptr (q.nodes (ptr q.cursor)).link),
              compare_exchange-same q.cursor (ptr (q.nodes (ptr q.cursor)).link),
            )
            (ap (λ z. some (q', z)) here),
        record {
          nodes_same = refl;
          head_same = refl;
          tail_same = refl;
          fresh_near = omega arith;
          free_chain = subst (λ z. Frees q.nodes z frees) (sym moved) later;
          once = λ x. omega (arith, same_count x, v.once x);
          made = λ x h. v.made x (omega (arith, same_count x));
        },
      )
    where
      same_count : (x : ℕ) → count x (p ∷ owned q used frees) ≡ count x (owned q used (p ∷ frees))
      same_count x = omega (arith, count-owned x q used frees, count-owned x q used (p ∷ frees))

  -- The node in `el_`.
  spare_lem :
      (q : Chained A) (used frees : List ℕ)
      → IsQuiet q used frees
      → (q.el == 0) ≡ false
      → IsFound q used (record q { el = 0 }) q.el frees
  spare_lem q used frees v some_node = record {
    nodes_same = refl;
    head_same = refl;
    tail_same = refl;
    fresh_near = omega arith;
    free_chain = v.free_chain;
    once = λ x. omega (arith, same_count x, v.once x);
    made = λ x h. v.made x (omega (arith, same_count x));
  }
    where
      same_count :
          (x : ℕ)
          → count x (q.el ∷ owned (record q { el = 0 }) used frees) ≡ count x (owned q used frees)
      same_count x =
          omega (
            arith,
            count-owned x q used frees,
            count-owned x (record q { el = 0 }) used frees,
            taken,
          )
        where
          taken : count x (spare q.el) ≡ count x (q.el ∷ [])
          taken = rw some_node refl

  -- After `alloc`: `p` holds the value, it ends a chain, and it is in no other place.
  pub record IsReady (q : Chained A) (used frees : List ℕ) (p : ℕ) (val : A) (q' : Chained A)
      : Type 0 where
    pub chain : Chain q'.nodes (ptr q.head) used
    pub head_same : q'.head ≡ q.head
    pub tail_same : q'.tail ≡ q.tail
    pub fresh_near : q'.fresh ≤ q.fresh + 1
    pub free_chain : Frees q'.nodes (ptr q'.cursor) frees
    pub once : (x : ℕ) → count x (p ∷ owned q' used frees) ≤ 1
    pub made : (x : ℕ) → 0 < count x (p ∷ owned q' used frees) → (0 < x) × (x < q'.fresh)
    pub ends : (q'.nodes p).next ≡ 0
    pub holds : (q'.nodes p).elem ≡ val
    pub elems_same : elems q'.nodes used ≡ elems q.nodes used

  find_lem :
      (rounds : ℕ) (q : Chained A) (used frees : List ℕ)
      → IsQuiet q used frees
      → 0 < q.fresh
      → (q' : Chained A) × (p : ℕ) × (frees' : List ℕ) × ((if q.el == 0
            then take_free (suc rounds) q.cursor q
            else some (record q { el = 0 }, q.el))
          ≡ some (q', p))
        × IsFound q used q' p frees'
  find_lem rounds q used frees v pos = elim (Bool-cases (q.el == 0)) [
    | inl e ↦
        let (q', p, frees', done, found) = take_free_lem rounds q used frees v pos in
        (q', p, frees', rw e done, found)
    | inr e ↦ (record q { el = 0 }, q.el, frees, rw e refl, spare_lem q used frees v e)
  ]

  pub alloc_lem :
      (rounds : ℕ) (q : Chained A) (used frees : List ℕ) (val : A)
      → IsQuiet q used frees
      → 0 < q.fresh
      → (q' : Chained A) × (p : ℕ) × (frees' : List ℕ) × (alloc (suc rounds) q val ≡ some (q', p))
        × IsReady q used frees' p val q'
  unfolding alloc
  alloc_lem rounds q used frees val v pos =
      let (q1, p, frees', done, f) = find_lem rounds q used frees v pos in
      let node : Node A = record (q1.nodes p) { elem = val; next = 0 } in
      let nodes = write p node q1.nodes in
      let new_node = write_same p node q1.nodes in
      let other : (x : ℕ) → 0 < count x (owned q1 used frees') → nodes x ≡ q.nodes x = λ x pos'.
        write_ne p node q1.nodes x (once-apart p x (owned q1 used frees') (f.once x) pos')
        ∙ ap (λ n. n x) f.nodes_same in
      let in_used : (x : ℕ) → 0 < count x (ptr q.head ∷ used) → 0 < count x (owned q1 used frees') =
        λ x h.
          omega
            (arith, count-owned x q1 used frees', ap (λ w. count x (ptr w ∷ used)) f.head_same) in
      (
        record q1 { nodes = nodes },
        p,
        frees',
        rw (alloc, done) refl,
        record {
          chain =
              Chain-same q.nodes nodes (ptr q.head) used
                (λ x h. ap (λ n. n.next) (other x (in_used x h))) v.chain;
          head_same = f.head_same;
          tail_same = f.tail_same;
          fresh_near = f.fresh_near;
          free_chain =
              Frees-same q.nodes nodes (ptr q1.cursor) frees'
                (λ x h. ap (λ n. n.link) (other x (omega (arith, count-owned x q1 used frees'))))
                f.free_chain;
          once = f.once;
          made = f.made;
          ends = ap (λ n. n.next) new_node;
          holds = ap (λ n. n.elem) new_node;
          elems_same =
              elems-same q.nodes nodes used
                (λ x h. ap (λ n. n.elem) (other x (in_used x (omega arith))));
        },
      )
