-- ===== src/MpmcList/Free.antt =====
-- `free` of mpmc_list.h puts a node in `el_`, and the one that was there on the chain of free nodes.
use mathlib.Core.Path.{subst}
use footstone.Base.Count.{count}
use footstone.Base.Store.{write, write_same, write_ne}
use footstone.Base.{
  ℕ, suc, ◌<◌, ◌≤◌, ◌≡◌, ◌≢◌, refl, sym, ap, ◌∙◌, true, false, List, [], ◌∷◌, arith, inl, inr, some,
  ◌==◌, ne→==_false, Bool-cases,
}
use footstone.MpmcList.{Chained, Node, incr, ptr, add, tagged, store, put_free, free}
use footstone.MpmcList.Tags.{ptr-tagged, compare_exchange-same}
use footstone.MpmcList.Nodes.{Frees, spare, owned, Frees-same, count_self}
use footstone.MpmcList.Pool.{count-owned, ptr-lt}

count-spare : (x el : ℕ) → (el == 0) ≡ false → count x (spare el) ≡ count x (el ∷ [])
count-spare x el e = rw e refl

count-spare_none : (x el : ℕ) → (el == 0) ≡ true → count x (spare el) ≡ 0
count-spare_none x el e = rw e refl

module _ {A : Type 0} where
  -- What `free` leaves.
  pub record IsFreed (q : Chained A) (used frees : List ℕ) (p : ℕ) (q' : Chained A)
      (frees' : List ℕ) : Type 0 where
    pub head_same : q'.head ≡ q.head
    pub tail_same : q'.tail ≡ q.tail
    pub fresh_same : q'.fresh ≡ q.fresh
    pub next_same : (x : ℕ) → (q'.nodes x).next ≡ (q.nodes x).next
    pub elem_same : (x : ℕ) → (q'.nodes x).elem ≡ (q.nodes x).elem
    pub free_chain : Frees q'.nodes (ptr q'.cursor) frees'
    pub counts : (x : ℕ) → count x (owned q' used frees') ≡ count x (p ∷ owned q used frees)

  relink :
      (at link : ℕ) (nodes : ℕ → Node A) (x : ℕ)
      → ((write at (record (nodes at) { link = link }) nodes x).next ≡ (nodes x).next)
        × ((write at (record (nodes at) { link = link }) nodes x).elem ≡ (nodes x).elem)
  unfolding write
  relink at link nodes x = elim (Bool-cases (x == at)) [
    | inl e ↦
        let same : at ≡ x = ground arith in
        rw e (ap (λ z. (nodes z).next) same, ap (λ z. (nodes z).elem) same)
    | inr e ↦ rw e (refl, refl)
  ]

  put_free_lem :
      (rounds : ℕ) (q : Chained A) (used frees : List ℕ) (p el : ℕ)
      → Frees q.nodes (ptr q.cursor) frees
      → count el frees ≡ 0
      → el ≢ 0
      → el < incr
      → (q' : Chained A) × (put_free (suc rounds) q.cursor el q ≡ some q')
        × (q'.head ≡ q.head)
        × (q'.tail ≡ q.tail)
        × (q'.fresh ≡ q.fresh)
        × (q'.el ≡ q.el)
        × ((x : ℕ) → (q'.nodes x).next ≡ (q.nodes x).next)
        × ((x : ℕ) → (q'.nodes x).elem ≡ (q.nodes x).elem)
        × Frees q'.nodes (ptr q'.cursor) (el ∷ frees)
  unfolding put_free store
  put_free_lem rounds q used frees p el chain apart some_node small =
      let node : Node A = record (q.nodes el) { link = store (q.nodes el).link (ptr q.cursor) } in
      let nodes = write el node q.nodes in
      let cursor = tagged el (add q.cursor) in
      let stored : ptr (nodes el).link ≡ ptr q.cursor =
        ap (λ n. ptr n.link) (write_same el node q.nodes)
        ∙ ap (λ t. ptr t.0) (compare_exchange-same (q.nodes el).link (ptr q.cursor))
        ∙ ptr-tagged (ptr q.cursor) (add (q.nodes el).link) (ptr-lt q.cursor) in
      (
        record q { nodes = nodes; cursor = cursor },
        rw (put_free, compare_exchange-same q.cursor el, compare_exchange-same q.cursor el) refl,
        refl,
        refl,
        refl,
        refl,
        λ x. (relink el (store (q.nodes el).link (ptr q.cursor)) q.nodes x).0,
        λ x. (relink el (store (q.nodes el).link (ptr q.cursor)) q.nodes x).1,
        (
          ptr-tagged el (add q.cursor) small,
          some_node,
          Frees-same q.nodes nodes (ptr (nodes el).link) frees
              (λ x pos.
                ap (λ n. n.link)
                  (write_ne el node q.nodes x
                    (λ e. omega (arith, pos, apart, ap (λ z. count z frees) e))))
              (subst (λ z. Frees q.nodes z frees) (sym stored) chain),
        ),
      )

  free_step :
      (rounds : ℕ) (q : Chained A) (p : ℕ)
      → p ≢ 0
      → (q.el == 0) ≡ false
      → free rounds q p ≡ put_free rounds q.cursor q.el (record q { el = p })
  unfolding free
  free_step rounds q p real e = rw (ne→==_false p 0 real, e) refl

  -- `free` keeps every node of the chain of elements, and owns the node that it was given.
  pub free_lem :
      (rounds : ℕ) (q : Chained A) (used frees : List ℕ) (p : ℕ)
      → Frees q.nodes (ptr q.cursor) frees
      → ((x : ℕ) → count x (p ∷ owned q used frees) ≤ 1)
      → ((x : ℕ) → 0 < count x (p ∷ owned q used frees) → (0 < x) × (x < q.fresh))
      → q.fresh ≤ incr
      → (q' : Chained A) × (frees' : List ℕ) × (free (suc rounds) q p ≡ some q')
        × IsFreed q used frees p q' frees'
  unfolding free
  free_lem rounds q used frees p chain once made fits =
      let real : p ≢ 0 = λ e. omega (arith, e, (made p (count_self p (owned q used frees))).0) in
      elim (Bool-cases (q.el == 0)) [
        | inl e ↦ (
          record q { el = p },
          frees,
          rw (ne→==_false p 0 real, e) refl,
          record {
            head_same = refl;
            tail_same = refl;
            fresh_same = refl;
            next_same = λ x. refl;
            elem_same = λ x. refl;
            free_chain = chain;
            counts = λ x. omega (
              arith,
              count-owned x (record q { el = p }) used frees,
              count-owned x q used frees,
              count-spare x p (ne→==_false p 0 real),
              count-spare_none x q.el e,
            );
          },
        )
        | inr e ↦
            let in_owned : 0 < count q.el (owned q used frees) =
              omega (
                arith,
                count-owned q.el q used frees,
                count-spare q.el q.el e,
                count_self q.el [],
              ) in
            let apart : count q.el frees ≡ 0 = omega (
              arith,
              once q.el,
              count-owned q.el q used frees,
              count-spare q.el q.el e,
              count_self q.el [],
            ) in
            let (low, high) = made q.el (omega (arith, in_owned)) in
            let (q', done, head, tail, fresh, el, next, elem, chain') =
              put_free_lem rounds (record q { el = p }) used frees p q.el chain apart
                (λ z. omega (arith, z)) (omega arith) in
            (
              q',
              q.el ∷ frees,
              free_step (suc rounds) q p real e ∙ done,
              record {
                head_same = head;
                tail_same = tail;
                fresh_same = fresh;
                next_same = next;
                elem_same = elem;
                free_chain = chain';
                counts = λ x. omega (
                  arith,
                  count-owned x q' used (q.el ∷ frees),
                  count-owned x q used frees,
                  ap (λ w. count x (ptr w ∷ used)) head,
                  ap (λ z. count x (spare z)) el,
                  count-spare x p (ne→==_false p 0 real),
                  count-spare x q.el e,
                );
              },
            )
      ]
