-- ===== src/Runner/Delayed.antt =====
-- The delayed queue of a TaskRunner: its order, and what `GetNext` takes from it.
use mathlib.Core.List.Perm
use mathlib.Core.List.{Perm}
use footstone.Base.{
  ℕ, zero, suc, ◌<◌, ◌≡◌, refl, sym, ap, ◌∙◌, inl, inr, true, false, List, [], ◌∷◌, ◌++◌,
  append-nil, append_assoc, Option, none, some, length, Bool-cases, if◌then◌else◌, arith,
}
use footstone.Base.Int.{◌≤ℤ◌}
use footstone.Time.{Point, time_lt}
use footstone.Runner.{Runner, Task, Entry, push_delayed, pop_due, move_due, get_next, pop_front}

-- Every deadline is `t` or later.
abbrev pub From : Point → List Entry → Type 0
From t [] = Unit {0}
From t ((u, _) ∷ entries) = (t ≤ℤ u) × From t entries

-- The earliest deadline is on top, and so on down.
abbrev pub IsSorted : List Entry → Type 0
IsSorted [] = Unit {0}
IsSorted ((t, _) ∷ entries) = From t entries × IsSorted entries

-- No entry has lost its task.
abbrev pub HasTasks : List Entry → Type 0
HasTasks [] = Unit {0}
HasTasks ((_, none) ∷ entries) = ⊥
HasTasks ((_, some _) ∷ entries) = HasTasks entries

-- The tasks whose deadline has come, earliest first, and the entries of the others.
unfoldable pub due : Point → List Entry → List (Option Task)
due now [] = []
due now ((t, x) ∷ entries) = if time_lt now t then due now entries else x ∷ due now entries

unfoldable pub later : Point → List Entry → List Entry
later now [] = []
later now ((t, x) ∷ entries) =
    if time_lt now t then (t, x) ∷ later now entries else later now entries

From-mono : (s t : Point) (entries : List Entry) → s ≤ℤ t → From t entries → From s entries
From-mono s t [] h f = tt
From-mono s t ((u, x) ∷ entries) h (a, f) = (omega arith, From-mono s t entries h f)

From-push :
    (s t : Point) (x : Option Task) (entries : List Entry)
    → s ≤ℤ t
    → From s entries
    → From s (push_delayed (t, x) entries)
unfolding push_delayed
From-push s t x [] h f = (h, tt)
From-push s t x ((u, y) ∷ entries) h (a, f) = elim (Bool-cases (time_lt t u)) [
  | inl e ↦ rw e (h, (a, f))
  | inr e ↦ rw e (a, From-push s t x entries h f)
]

-- A post keeps the queue in order.
pub push_delayed-IsSorted :
    (t : Point) (x : Option Task) (entries : List Entry)
    → IsSorted entries
    → IsSorted (push_delayed (t, x) entries)
unfolding push_delayed
push_delayed-IsSorted t x [] s = (tt, tt)
push_delayed-IsSorted t x ((u, y) ∷ entries) (f, s) = elim (Bool-cases (time_lt t u)) [
  | inl e ↦ let le : t ≤ℤ u = ground arith in rw e ((le, From-mono t u entries le f), (f, s))
  | inr e ↦
      let le : u ≤ℤ t = ground arith in
      rw e (From-push u t x entries le f, push_delayed-IsSorted t x entries s)
]

-- A post adds its entry, and nothing else.
pub push_delayed-perm :
    (e : Entry) (entries : List Entry) → Perm (push_delayed e entries) (e ∷ entries)
unfolding push_delayed
push_delayed-perm (t, x) [] = Perm.refl _
push_delayed-perm (t, x) ((u, y) ∷ entries) = elim (Bool-cases (time_lt t u)) [
  | inl e ↦ rw e (Perm.refl _)
  | inr e ↦ rw e (
      Perm.trans (Perm.cons (u, y) (push_delayed-perm (t, x) entries))
        (Perm.swap (t, x) (u, y) entries))
]

-- Behind an entry that is not due none is.
none_due :
    (now t : Point) (entries : List Entry)
    → time_lt now t ≡ true
    → From t entries
    → (due now entries ≡ []) × (later now entries ≡ entries)
unfolding due later
none_due now t [] h f = (refl, refl)
none_due now t ((u, x) ∷ entries) h (a, f) =
    let e : time_lt now u ≡ true = ground arith in
    let (p, q) = none_due now t entries h f in (rw e p, rw e (ap (λ r. (u, x) ∷ r) q))

module _ (now u : Point) (x : Option Task) (entries : List Entry) where
  pop_due-later : time_lt now u ≡ true → pop_due now ((u, x) ∷ entries) ≡ (none, (u, x) ∷ entries)
  unfolding pop_due
  pop_due-later e = rw e

  pop_due-now : time_lt now u ≡ false → pop_due now ((u, x) ∷ entries) ≡ (x, entries)
  unfolding pop_due
  pop_due-now e = rw e

  due_none :
      time_lt now u ≡ true
      → From u entries
      → (due now ((u, x) ∷ entries) ≡ []) × (later now ((u, x) ∷ entries) ≡ (u, x) ∷ entries)
  unfolding due later
  due_none e f = let (p, r) = none_due now u entries e f in (rw e p, rw e (ap (λ l. (u, x) ∷ l) r))

  due_one :
      time_lt now u ≡ false
      → (due now ((u, x) ∷ entries) ≡ x ∷ due now entries)
        × (later now ((u, x) ∷ entries) ≡ later now entries)
  unfolding due later
  due_one e = (rw e, rw e)

move_due-stop :
    (fuel : ℕ) (now : Point) (q : List (Option Task)) (entries : List Entry)
    → move_due fuel now none q entries ≡ (q, entries)
unfolding move_due
move_due-stop zero now q entries = refl
move_due-stop (suc fuel) now q entries = refl

move_due-step :
    (fuel : ℕ) (now : Point) (t : Task) (q : List (Option Task)) (entries : List Entry)
    (x : Option Task) (rest : List Entry)
    → pop_due now entries ≡ (x, rest)
    → move_due (suc fuel) now (some t) q entries ≡ move_due fuel now x (q ++ (some t ∷ [])) rest
unfolding move_due
move_due-step fuel now t q entries x rest e =
    ap (λ (p : Option Task × List Entry). move_due fuel now p.0 (q ++ (some t ∷ [])) p.1) e

pop_due-nil : (now : Point) → pop_due now [] ≡ (none, [])
unfolding pop_due
pop_due-nil now = refl

-- The loop moves all that is due behind the queue, and ends by its test.
move_due_lem :
    (fuel : ℕ) (now : Point) (t : Task) (q : List (Option Task)) (entries : List Entry)
    → length entries < fuel
    → IsSorted entries
    → HasTasks entries
    → move_due fuel now (some t) q entries
      ≡ ((q ++ (some t ∷ [])) ++ due now entries, later now entries)
move_due_lem zero now t q entries h s k = absurd (omega arith)
move_due_lem (suc fuel) now t q [] h s k =
    move_due-step fuel now t q [] none [] (pop_due-nil now)
    ∙ move_due-stop fuel now (q ++ (some t ∷ [])) []
    ∙ (unfold due later in ap (λ l. (l, [])) (sym (append-nil (q ++ (some t ∷ [])))))
move_due_lem (suc zero) now t q (e ∷ entries) h s k = absurd (omega arith)
move_due_lem (suc (suc fuel)) now t q ((u, some x) ∷ entries) h (f, s) k =
    elim (Bool-cases (time_lt now u)) [
      | inl e ↦
          let (p, r) = due_none now u (some x) entries e f in
          rw (p, r, append-nil (q ++ (some t ∷ [])))
            (move_due-step (suc fuel) now t q _ none _ (pop_due-later now u (some x) entries e)
              ∙ move_due-stop (suc fuel) now (q ++ (some t ∷ [])) ((u, some x) ∷ entries))
      | inr e ↦
          let (p, r) = due_one now u (some x) entries e in
          rw (p, r)
            (move_due-step (suc fuel) now t q _ (some x) entries
                (pop_due-now now u (some x) entries e)
              ∙ move_due_lem (suc fuel) now x (q ++ (some t ∷ [])) entries (omega arith) s k
              ∙ ap (λ l. (l, later now entries))
                  (append_assoc (q ++ (some t ∷ [])) (some x ∷ []) _))
    ]
move_due_lem _ now t q ((u, none) ∷ entries) h (f, s) k = elim k [ ]

drained :
    (now : Point) (q : List (Option Task)) (entries : List Entry)
    → IsSorted entries
    → HasTasks entries
    → let (task, rest) = pop_due now entries in
      move_due (suc (length rest)) now task q rest ≡ (q ++ due now entries, later now entries)
drained now q [] s k = unfold pop_due move_due due later in ap (λ l. (l, [])) (sym (append-nil q))
drained now q ((u, some x) ∷ entries) (f, s) k = elim (Bool-cases (time_lt now u)) [
  | inl e ↦
      let (p, r) = due_none now u (some x) entries e f in
      rw (pop_due-later now u (some x) entries e, p, r, append-nil q) (move_due-stop _ now q _)
  | inr e ↦
      let (p, r) = due_one now u (some x) entries e in
      rw
        (
          pop_due-now now u (some x) entries e,
          p,
          r,
          move_due_lem (suc (length entries)) now x q entries (omega arith) s k,
        )
        (ap (λ l. (l, later now entries)) (append_assoc q (some x ∷ []) _))
]
drained now q ((u, none) ∷ entries) (f, s) k = elim k [ ]

-- What `GetNext` hands out of: the ready tasks, and behind them those that are due.
unfoldable pub ready : Runner → Point → List (Option Task)
ready r now = r.task_queue ++ due now r.delayed_task_queue

-- Where the delayed queue is in the order of its deadlines and no null task was posted to it, `GetNext` at
-- time `now` hands out the first of the ready and the due tasks, in the order in which they became ready,
-- keeps the rest of them ready, and leaves exactly the entries that are not due.
pub get_next_lem :
    (r : Runner) (now : Point)
    → IsSorted r.delayed_task_queue
    → HasTasks r.delayed_task_queue
    → let (task, rest) = pop_front (ready r now) in
      get_next r now
      ≡ (task, record r { task_queue = rest; delayed_task_queue = later now r.delayed_task_queue })
unfolding get_next ready
get_next_lem r now s k = rw (drained now r.task_queue r.delayed_task_queue s k)
