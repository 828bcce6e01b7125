-- ===== src/MpmcList/Runs.antt =====
-- Sequences of calls on the list of mpmc_list.h, one after the other.
use footstone.Base.{
  ℕ, suc, ◌+◌, ◌<◌, ◌≤◌, ◌≡◌, refl, Bool, true, false, List, [], ◌∷◌, ◌++◌, length, arith, Option,
  none, some, ◌==◌, Bool-cases, inl, inr,
}
use footstone.Base.Fifo.{Call, push_call, pop_call}
use footstone.MpmcList.{Chained, new, incr, ptr, push, pop}
use footstone.MpmcList.Nodes.{IsQuiet, elems}
use footstone.MpmcList.Pool.{one_at_most}
use footstone.MpmcList.Fifo.{push_lem, take_empty, pop_first}

-- What each call returns; `none` if a loop needs more than `rounds` rounds.
unfoldable pub run : {A : Type 0} → ℕ → Chained A → List (Call A) → Option (List (Bool × Option A))
unfolding push pop
run rounds q [] = some []
run rounds q (push_call x ∷ calls) = elim (push rounds q x) [
  | none ↦ none
  | some (q', done) ↦ elim (run rounds q' calls) [
    | none ↦ none
    | some answers ↦ some ((done, none) ∷ answers)
  ]
]
run rounds q (pop_call ∷ calls) = elim (pop rounds q) [
  | none ↦ none
  | some (q', out) ↦ elim (run rounds q' calls) [
    | none ↦ none
    | some answers ↦ some ((elim out [ none ↦ false | some _ ↦ true ], out) ∷ answers)
  ]
]

-- The queue without a bound that the list stands for.
unfoldable pub endless_run : {A : Type 0} → List A → List (Call A) → List (Bool × Option A)
endless_run l [] = []
endless_run l (push_call x ∷ calls) = (true, none) ∷ endless_run (l ++ (x ∷ [])) calls
endless_run [] (pop_call ∷ calls) = (false, none) ∷ endless_run [] calls
endless_run (x ∷ l) (pop_call ∷ calls) = (true, some x) ∷ endless_run l calls

-- From a list in which no call is under way, no sequence of calls, none of which overlaps another,
-- tells it from a first-in first-out queue without a bound, as long as the nodes' addresses fit below
-- the tag. Two rounds of each loop are enough.
pub run_as_endless :
    {A : Type 0} (rounds : ℕ) (q : Chained A) (used frees : List ℕ) (calls : List (Call A))
    → IsQuiet q used frees
    → 0 < q.fresh
    → q.fresh + length calls ≤ incr
    → run (suc (suc rounds)) q calls ≡ some (endless_run (elems q.nodes used) calls)
unfolding run endless_run
run_as_endless rounds q used frees [] v pos fits = refl
run_as_endless rounds q used frees (push_call x ∷ calls) v pos fits =
    let (q', p, frees', done, v', es, near, some_made) =
      push_lem (suc rounds) q used frees x v pos (omega arith) in
    let rest =
      run_as_endless rounds q' (used ++ (p ∷ [])) frees' calls v' some_made (omega (arith, near)) in
    rw (run, done, rest, es) refl
run_as_endless rounds q [] frees (pop_call ∷ calls) v pos fits =
    rw
      (
        run,
        take_empty (suc rounds) q frees v,
        run_as_endless rounds q [] frees calls v pos (omega arith),
      )
      refl
run_as_endless rounds q (x ∷ used) frees (pop_call ∷ calls) v pos fits =
    let (q', frees', done, v', es, near) = pop_first rounds q x used frees v (omega arith) in
    let rest =
      run_as_endless rounds q' used frees' calls v' (omega (arith, near)) (omega (arith, near)) in
    rw (run, done, rest, es) refl

-- The list that the constructor makes.
pub new-IsQuiet : {A : Type 0} (made : A) → IsQuiet (new made) [] []
unfolding new ptr
new-IsQuiet made = record {
  chain = refl;
  tail_last = refl;
  free_chain = refl;
  once = λ x. omega (arith, one_at_most (1 == x));
  made = λ x pos. elim (Bool-cases (1 == x)) [
    | inl e ↦ let same : 1 ≡ x = ground arith in (omega arith, omega arith)
    | inr e ↦ let none_there : 0 < 0 + 0 = rw e at pos in absurd (omega (arith, none_there))
  ];
}
