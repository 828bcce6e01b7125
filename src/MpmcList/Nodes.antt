-- ===== src/MpmcList/Nodes.antt =====
-- Which nodes the list of mpmc_list.h owns, and what its operations do to the chain of its elements.
use footstone.Base.Count.{count}
use footstone.Base.Store.{write, write_same, write_ne}
use footstone.Base.{
  ℕ, ◌+◌, ◌<◌, ◌≤◌, ◌≡◌, ◌≢◌, refl, ap, ◌∙◌, List, [], ◌∷◌, ◌++◌, map, arith, ◌==◌, eq→==,
  if◌then◌else◌,
}
use footstone.MpmcList.{Chained, Node, ptr}

abbrev pub last_of : ℕ → List ℕ → ℕ
last_of p [] = p
last_of p (x ∷ xs) = last_of x xs

-- The node in `el_`, if there is one.
abbrev pub spare : ℕ → List ℕ
spare el = if el == 0 then [] else el ∷ []

pub count_self : (x : ℕ) (xs : List ℕ) → 0 < count x (x ∷ xs)
count_self x xs = rw (eq→== x x refl) (omega arith)

pub last_of-in : (p : ℕ) (xs : List ℕ) → 0 < count (last_of p xs) (p ∷ xs)
last_of-in p [] = count_self p []
last_of-in p (x ∷ xs) = omega (arith, last_of-in x xs)

count-other : (x y : ℕ) (xs : List ℕ) → count x (y ∷ xs) ≡ 0 → x ≢ y
count-other x y xs none_there e =
    omega (arith, none_there, count_self x xs, ap (λ z. count x (z ∷ xs)) e)

module _ {A : Type 0} where
  -- The nodes behind `p`, in order; `next_` of the last is null.
  abbrev pub Chain : (ℕ → Node A) → ℕ → List ℕ → Type 0
  Chain nodes p [] = ptr (nodes p).next ≡ 0
  Chain nodes p (x ∷ xs) = (ptr (nodes p).next ≡ x) × (x ≢ 0) × Chain nodes x xs

  -- The free nodes from `p` on, along the links of the pool.
  abbrev pub Frees : (ℕ → Node A) → ℕ → List ℕ → Type 0
  Frees nodes p [] = p ≡ 0
  Frees nodes p (x ∷ xs) = (p ≡ x) × (x ≢ 0) × Frees nodes (ptr (nodes x).link) xs

  abbrev pub elems : (ℕ → Node A) → List ℕ → List A
  elems nodes l = map (λ p. (nodes p).elem) l

  -- All nodes that the list has.
  abbrev pub owned : Chained A → List ℕ → List ℕ → List ℕ
  owned q used frees = (ptr q.head ∷ used) ++ (spare q.el ++ frees)

  -- No call is under way; the elements are in the nodes `used`, and `frees` are the free nodes behind `cursor_`.
  pub record IsQuiet (q : Chained A) (used frees : List ℕ) : Type 0 where
    pub chain : Chain q.nodes (ptr q.head) used
    pub tail_last : ptr q.tail ≡ last_of (ptr q.head) used
    pub free_chain : Frees q.nodes (ptr q.cursor) frees
    pub once : (x : ℕ) → count x (owned q used frees) ≤ 1
    pub made : (x : ℕ) → 0 < count x (owned q used frees) → (0 < x) × (x < q.fresh)

  pub Chain-same :
      (nodes nodes' : ℕ → Node A) (p : ℕ) (xs : List ℕ)
      → ((x : ℕ) → 0 < count x (p ∷ xs) → (nodes' x).next ≡ (nodes x).next)
      → Chain nodes p xs
      → Chain nodes' p xs
  Chain-same nodes nodes' p [] same c = ap ptr (same p (count_self p [])) ∙ c
  Chain-same nodes nodes' p (x ∷ xs) same (here, some_node, c) = (
    ap ptr (same p (count_self p (x ∷ xs))) ∙ here,
    some_node,
    Chain-same nodes nodes' x xs (λ y pos. same y (omega arith)) c,
  )

  pub Frees-same :
      (nodes nodes' : ℕ → Node A) (p : ℕ) (xs : List ℕ)
      → ((x : ℕ) → 0 < count x xs → (nodes' x).link ≡ (nodes x).link)
      → Frees nodes p xs
      → Frees nodes' p xs
  Frees-same nodes nodes' p [] same c = c
  Frees-same nodes nodes' p (x ∷ xs) same (here, some_node, c) = (
    here,
    some_node,
    rw (same x (count_self x xs))
        (Frees-same nodes nodes' (ptr (nodes x).link) xs (λ y pos. same y (omega arith)) c),
  )

  pub elems-same :
      (nodes nodes' : ℕ → Node A) (xs : List ℕ)
      → ((x : ℕ) → 0 < count x xs → (nodes' x).elem ≡ (nodes x).elem)
      → elems nodes' xs ≡ elems nodes xs
  elems-same nodes nodes' [] same = refl
  elems-same nodes nodes' (x ∷ xs) same =
      rw (same x (count_self x xs), elems-same nodes nodes' xs (λ y pos. same y (omega arith))) refl

  -- A node behind the last one.
  pub Chain-snoc :
      (nodes : ℕ → Node A) (p : ℕ) (xs : List ℕ) (y w : ℕ)
      → Chain nodes p xs
      → ((x : ℕ) → count x (p ∷ xs) ≤ 1)
      → y ≢ 0
      → ptr w ≡ y
      → ptr (nodes y).next ≡ 0
      → count y (p ∷ xs) ≡ 0
      → Chain
          (write (last_of p xs) (record (nodes (last_of p xs)) { next = w }) nodes)
          p
          (xs ++ (y ∷ []))
  Chain-snoc nodes p [] y w c once new points ends apart = (
    ap (λ n. ptr n.next) (write_same p (record (nodes p) { next = w }) nodes) ∙ points,
    new,
    ap (λ n. ptr n.next)
          (write_ne p (record (nodes p) { next = w }) nodes y (count-other y p [] apart))
        ∙ ends,
  )
  Chain-snoc nodes p (x ∷ xs) y w (here, some_node, c) once new points ends apart = (
    ap (λ n. ptr n.next)
          (write_ne (last_of x xs) (record (nodes (last_of x xs)) { next = w }) nodes p first)
        ∙ here,
    some_node,
    Chain-snoc nodes x xs y w c (λ z. omega (arith, once z)) new points ends (omega arith),
  )
    where
      first : p ≢ last_of x xs
      first e = omega (
        arith,
        once p,
        count_self p (x ∷ xs),
        last_of-in x xs,
        ap (λ z. count z (x ∷ xs)) e,
        twice,
      )
        where
          twice : count p (p ∷ x ∷ xs) ≡ 1 + count p (x ∷ xs)
          twice = rw (eq→== p p refl) refl
