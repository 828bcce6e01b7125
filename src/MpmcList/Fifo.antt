-- ===== src/MpmcList/Fifo.antt =====
-- Between the calls, the list of mpmc_list.h is a first-in first-out queue without a bound.
use mathlib.Core.Path.{subst}
use footstone.Base.Count.{count, count-append}
use footstone.Base.Store.{write}
use footstone.Base.{
  ℕ, suc, ◌+◌, ◌<◌, ◌≤◌, ◌≡◌, ◌≢◌, refl, sym, ap, ◌∙◌, true, List, [], ◌∷◌, ◌++◌, arith, inl, inr,
  none, some, ◌==◌, eq→==, ne→==_false, Bool-cases,
}
use footstone.MpmcList.{Chained, Node, incr, ptr, add, tagged, free, append, push, take, pop}
use footstone.MpmcList.Tags.{ptr-tagged, compare_exchange-same}
use footstone.MpmcList.Nodes.{
  Chain, Frees, last_of, elems, owned, IsQuiet, count_self, last_of-in, Chain-same, Frees-same,
  elems-same, Chain-snoc,
}
use footstone.MpmcList.Pool.{count-owned, ptr-lt, once-apart, alloc_lem}
use footstone.MpmcList.Free.{free_lem}

ptr_null : ptr 0 ≡ 0
unfolding ptr
ptr_null = refl

last_of-snoc : (p : ℕ) (xs : List ℕ) (y : ℕ) → last_of p (xs ++ (y ∷ [])) ≡ y
last_of-snoc p [] y = refl
last_of-snoc p (x ∷ xs) y = last_of-snoc x xs y

module _ {A : Type 0} where
  Chain-last :
      (nodes : ℕ → Node A) (p : ℕ) (xs : List ℕ)
      → Chain nodes p xs
      → ptr (nodes (last_of p xs)).next ≡ 0
  Chain-last nodes p [] c = c
  Chain-last nodes p (x ∷ xs) (_, _, c) = Chain-last nodes x xs c

  elems-snoc :
      (nodes : ℕ → Node A) (xs : List ℕ) (y : ℕ)
      → elems nodes (xs ++ (y ∷ [])) ≡ elems nodes xs ++ ((nodes y).elem ∷ [])
  elems-snoc nodes [] y = refl
  elems-snoc nodes (x ∷ xs) y = ap (λ l. (nodes x).elem ∷ l) (elems-snoc nodes xs y)

  -- The list after `append` has linked `p` behind its last node.
  abbrev linked : Chained A → ℕ → Chained A
  linked q p =
      let node = q.nodes (ptr q.tail) in
      record q {
        nodes = write (ptr q.tail) (record node { next = tagged p (add node.next) }) q.nodes;
        tail = tagged p (add q.tail);
      }

  append_lem :
      (rounds p : ℕ) (q : Chained A)
      → ptr (q.nodes (ptr q.tail)).next ≡ 0
      → append (suc rounds) p q.tail q ≡ some (linked q p)
  unfolding append
  append_lem rounds p q ends =
      let word = (q.nodes (ptr q.tail)).next in
      rw
        (
          append,
          eq→== q.tail q.tail refl,
          eq→== (ptr word) 0 ends,
          compare_exchange-same word p,
          compare_exchange-same word p,
          compare_exchange-same q.tail p,
        )
        refl

  renext :
      (at next : ℕ) (nodes : ℕ → Node A) (x : ℕ)
      → ((write at (record (nodes at) { next = next }) nodes x).link ≡ (nodes x).link)
        × ((write at (record (nodes at) { next = next }) nodes x).elem ≡ (nodes x).elem)
  unfolding write
  renext at next nodes x = elim (Bool-cases (x == at)) [
    | inl e ↦
        let same : at ≡ x = ground arith in
        rw e (ap (λ z. (nodes z).link) same, ap (λ z. (nodes z).elem) same)
    | inr e ↦ rw e (refl, refl)
  ]

  linked-IsQuiet :
      (q : Chained A) (used frees : List ℕ) (p : ℕ)
      → Chain q.nodes (ptr q.head) used
      → ptr q.tail ≡ last_of (ptr q.head) used
      → Frees q.nodes (ptr q.cursor) frees
      → ((x : ℕ) → count x (p ∷ owned q used frees) ≤ 1)
      → ((x : ℕ) → 0 < count x (p ∷ owned q used frees) → (0 < x) × (x < q.fresh))
      → (q.nodes p).next ≡ 0
      → p < incr
      → IsQuiet (linked q p) (used ++ (p ∷ [])) frees
  linked-IsQuiet q used frees p chain last free_chain once made ends small =
      let h = ptr q.head in
      let word = λ (z : ℕ). tagged p (add (q.nodes z).next) in
      let real : p ≢ 0 = λ e. omega (arith, e, (made p (count_self p (owned q used frees))).0) in
      let apart : count p (h ∷ used) ≡ 0 =
        omega (arith, once p, count_self p [], count-owned p q used frees) in
      record {
        chain =
            subst
              (λ z.
                Chain (write z (record (q.nodes z) { next = word z }) q.nodes) h (used ++ (p ∷ [])))
              (sym last)
              (Chain-snoc q.nodes h used p (word (last_of h used)) chain
                (λ x. omega (arith, once x, count-owned x q used frees)) real
                (ptr-tagged p (add (q.nodes (last_of h used)).next) small) (ap ptr ends ∙ ptr_null)
                apart);
        tail_last = ptr-tagged p (add q.tail) small ∙ sym (last_of-snoc h used p);
        free_chain =
            Frees-same q.nodes (linked q p).nodes (ptr q.cursor) frees
              (λ x pos. (renext (ptr q.tail) (word (ptr q.tail)) q.nodes x).0) free_chain;
        once = λ x. omega (arith, once x, same_count x);
        made = λ x pos. made x (omega (arith, same_count x));
      }
    where
      same_count :
          (x : ℕ)
          → count x (owned (linked q p) (used ++ (p ∷ [])) frees) ≡ count x (p ∷ owned q used frees)
      same_count x = omega (
        arith,
        count-owned x (linked q p) (used ++ (p ∷ [])) frees,
        count-owned x q used frees,
        count-append x used (p ∷ []),
      )

  elems-linked :
      (q : Chained A) (used : List ℕ) (p : ℕ)
      → elems (linked q p).nodes (used ++ (p ∷ [])) ≡ elems q.nodes used ++ ((q.nodes p).elem ∷ [])
  elems-linked q used p =
      let word = tagged p (add (q.nodes (ptr q.tail)).next) in
      elems-same q.nodes (linked q p).nodes (used ++ (p ∷ []))
        (λ x pos. (renext (ptr q.tail) word q.nodes x).1)
      ∙ elems-snoc q.nodes used p

  -- `push` puts the element last.
  pub push_lem :
      (rounds : ℕ) (q : Chained A) (used frees : List ℕ) (val : A)
      → IsQuiet q used frees
      → 0 < q.fresh
      → q.fresh < incr
      → (q' : Chained A) × (p : ℕ) × (frees' : List ℕ) × (push (suc rounds) q val ≡ some (q', true))
        × IsQuiet q' (used ++ (p ∷ [])) frees'
        × (elems q'.nodes (used ++ (p ∷ [])) ≡ elems q.nodes used ++ (val ∷ []))
        × (q'.fresh ≤ q.fresh + 1)
        × (0 < q'.fresh)
  unfolding push
  push_lem rounds q used frees val v pos fits =
      let (q1, p, frees', done, r) = alloc_lem rounds q used frees val v pos in
      let t = ptr q1.tail in
      let last : t ≡ last_of (ptr q.head) used = ap ptr r.tail_same ∙ v.tail_last in
      let ends : ptr (q1.nodes t).next ≡ 0 =
        ap (λ z. ptr (q1.nodes z).next) last ∙ Chain-last q1.nodes (ptr q.head) used r.chain in
      let low : p < incr =
        omega (arith, (r.made p (count_self p (owned q1 used frees'))).1, r.fresh_near, fits) in
      let q2 = linked q1 p in
      (
        q2,
        p,
        frees',
        rw (push, done, append_lem rounds p q1 ends) refl,
        linked-IsQuiet q1 used frees' p
            (subst (λ w. Chain q1.nodes (ptr w) used) (sym r.head_same) r.chain)
            (last ∙ ap (λ w. last_of (ptr w) used) (sym r.head_same)) r.free_chain r.once r.made
            r.ends low,
        elems-linked q1 used p
            ∙ ap (λ l. l ++ ((q1.nodes p).elem ∷ [])) r.elems_same
            ∙ ap (λ e. elems q.nodes used ++ (e ∷ [])) r.holds,
        r.fresh_near,
        omega (arith, (r.made p (count_self p (owned q1 used frees'))).1),
      )

  -- `pop` of an empty list fails.
  pub take_empty :
      (rounds : ℕ) (q : Chained A) (frees : List ℕ)
      → IsQuiet q [] frees
      → pop (suc rounds) q ≡ some (q, none)
  unfolding pop take
  take_empty rounds q frees v =
      rw
        (
          take,
          eq→== q.head q.head refl,
          eq→== (ptr q.head) (ptr q.tail) (sym v.tail_last),
          eq→== (ptr (q.nodes (ptr q.head)).next) 0 v.chain,
        )
        refl

  take_first :
      (rounds : ℕ) (q q' : Chained A)
      → ptr q.head ≢ ptr q.tail
      → let next = ptr (q.nodes (ptr q.head)).next in
        free rounds (record q { head = tagged next (add q.head) }) (ptr q.head) ≡ some q'
        → pop (suc rounds) q ≡ some (q', some (q.nodes next).elem)
  unfolding pop take
  take_first rounds q q' apart done =
      let next = ptr (q.nodes (ptr q.head)).next in
      rw
        (
          take,
          eq→== q.head q.head refl,
          ne→==_false (ptr q.head) (ptr q.tail) apart,
          compare_exchange-same q.head next,
          compare_exchange-same q.head next,
          done,
        )
        refl

  -- `pop` takes the element of the first node behind `head_`, which is the next to hold none.
  pub pop_first :
      (rounds : ℕ) (q : Chained A) (x : ℕ) (xs frees : List ℕ)
      → IsQuiet q (x ∷ xs) frees
      → q.fresh ≤ incr
      → (q' : Chained A) × (frees' : List ℕ) × (pop (suc (suc rounds)) q
          ≡ some (q', some (q.nodes x).elem))
        × IsQuiet q' xs frees'
        × (elems q'.nodes xs ≡ elems q.nodes xs)
        × (q'.fresh ≡ q.fresh)
  pop_first rounds q x xs frees v fits =
      let h = ptr q.head in
      let next = ptr (q.nodes h).next in
      let (here, some_node, chain) = v.chain in
      let q1 : Chained A = record q { head = tagged next (add q.head) } in
      let at : ptr q1.head ≡ x = ptr-tagged next (add q.head) (ptr-lt (q.nodes h).next) ∙ here in
      let counts : (z : ℕ) → count z (h ∷ owned q1 xs frees) ≡ count z (owned q (x ∷ xs) frees) =
        λ z. omega (
          arith,
          count-owned z q1 xs frees,
          count-owned z q (x ∷ xs) frees,
          ap (λ w. count z (w ∷ xs)) at,
        ) in
      let (q', frees', done, f) =
        free_lem rounds q1 xs frees h v.free_chain (λ z. omega (arith, counts z, v.once z))
          (λ z pos. v.made z (omega (arith, counts z))) fits in
      let at' : ptr q'.head ≡ x = ap ptr f.head_same ∙ at in
      let apart : h ≢ ptr q.tail = λ e.
        once-apart h (last_of x xs) (x ∷ xs)
          (omega (arith, v.once (last_of x xs), count-owned (last_of x xs) q (x ∷ xs) frees))
          (last_of-in x xs) (sym (e ∙ v.tail_last)) in
      (
        q',
        frees',
        take_first (suc rounds) q q' apart done ∙ ap (λ z. some (q', some (q.nodes z).elem)) here,
        record {
          chain =
              subst (λ z. Chain q'.nodes z xs) (sym at')
                (Chain-same q.nodes q'.nodes x xs (λ z _. f.next_same z) chain);
          tail_last = ap ptr f.tail_same ∙ v.tail_last ∙ ap (λ z. last_of z xs) (sym at');
          free_chain = f.free_chain;
          once = λ z. omega (arith, f.counts z, counts z, v.once z);
          made = λ z pos. rw f.fresh_same (v.made z (omega (arith, f.counts z, counts z)));
        },
        elems-same q.nodes q'.nodes xs (λ z _. f.elem_same z),
        f.fresh_same,
      )
