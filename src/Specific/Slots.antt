-- ===== src/Specific/Slots.antt =====
-- What the thread-specific values of a worker owe the tasks: which calls last, and what
-- a task reads back.
use footstone.Base.{
  ℕ, zero, suc, ◌+◌, ◌<◌, ◌≡◌, refl, ap, ◌∙◌, ◌⊎◌, inl, inr, true, false, List, [], ◌∷◌, Option,
  none, some, Option-cases, Bool-cases, get_elem?, replicate, arith,
}
use footstone.Base.Int.{ℤ, pos, negsuc}
use footstone.Specific.{
  Specifics, WorkerKey, no_keys, no_specific, find, take_key, worker_key_create, slot,
  worker_key_delete, worker_set_specific, worker_get_specific, update_specific_keys,
  update_specific,
}
use footstone.Specific.Maps.{find-insert_same}

-- A call of a task on its specific values.
pub data KeyCall : Type 0 where
  create : ℕ → KeyCall
  delete : ℤ → KeyCall
  assign : ℤ → Option ℕ → KeyCall

-- `i` is the least index of a key that is not in use.
abbrev pub FirstUnused : List WorkerKey → ℕ → Type 0
FirstUnused array i =
    ((k : WorkerKey) × (get_elem? array i ≡ some k) × (k.is_used ≡ false))
    × ((j : ℕ) (k : WorkerKey) → j < i → get_elem? array j ≡ some k → k.is_used ≡ true)

abbrev pub AllUsed : List WorkerKey → Type 0
AllUsed array = (j : ℕ) (k : WorkerKey) → get_elem? array j ≡ some k → k.is_used ≡ true

AllUsed-cons :
    (k : WorkerKey) (array : List WorkerKey)
    → k.is_used ≡ true
    → AllUsed array
    → AllUsed (k ∷ array)
AllUsed-cons k array u all zero k' e = ground arith
AllUsed-cons k array u all (suc j) k' e = all j k' e

FirstUnused-cons :
    (k : WorkerKey) (array : List WorkerKey) (i : ℕ)
    → k.is_used ≡ true
    → FirstUnused array i
    → FirstUnused (k ∷ array) (suc i)
FirstUnused-cons k array i u (found, before) = (found, before')
  where
    before' :
        (j : ℕ) (k' : WorkerKey) → j < suc i → get_elem? (k ∷ array) j ≡ some k' → k'.is_used ≡ true
    before' zero k' l e = ground arith
    before' (suc j) k' l e = before j k' (omega arith) e

take_key_lem :
    (d n : ℕ) (array : List WorkerKey)
    → (AllUsed array × ((take_key d n array).1 ≡ negsuc 0))
      ⊎ ((i : ℕ) × FirstUnused array i × ((take_key d n array).1 ≡ pos (n + i)))
unfolding take_key
take_key_lem d n [] = inl (λ j k e. cc, refl)
take_key_lem d n (k ∷ array) = elim (Bool-cases k.is_used) [
  | inr e ↦ inr (0, ((k, refl, e), λ j k' l e'. absurd (omega arith)), rw e (ground arith))
  | inl e ↦ elim (take_key_lem d (suc n) array) [
    | inl (all, none_free) ↦ inl (AllUsed-cons k array e all, rw e none_free)
    | inr (i, first, at) ↦ inr (suc i, FirstUnused-cons k array i e first, rw e (ground arith))
  ]
]

take_key_zero :
    (d : ℕ) (array : List WorkerKey)
    → (AllUsed array × ((take_key d 0 array).1 ≡ negsuc 0))
      ⊎ ((i : ℕ) × FirstUnused array i × ((take_key d 0 array).1 ≡ pos i))
take_key_zero d array = elim (take_key_lem d 0 array) [
  | inl all ↦ inl all
  | inr (i, first, at) ↦ inr (i, first, at ∙ ap pos (omega arith))
]

worker_key_create-some :
    (s : Specifics) (id d : ℕ) (array : List WorkerKey)
    → find id s.keys ≡ some array
    → worker_key_create s id d ≡ (s, (take_key d 0 array).1)
unfolding worker_key_create
worker_key_create-some s id d array e = rw (e, worker_key_create) refl

worker_key_create-none :
    (s : Specifics) (id d : ℕ) → find id s.keys ≡ none → worker_key_create s id d ≡ (s, negsuc 0)
unfolding worker_key_create
worker_key_create-none s id d e = rw (e, worker_key_create) refl

-- `WorkerKeyCreate` answers with the least unused index of the runner's array, or -1 if there is none
-- or the runner has no array. It takes the index in a copy only: the worker is left as it was.
worker_key_create_lem :
    (s : Specifics) (id d : ℕ)
    → let (s', key) = worker_key_create s id d in
      (s' ≡ s)
      × (find id s.keys ≡ none → key ≡ negsuc 0)
      × ((array : List WorkerKey)
          → find id s.keys ≡ some array
          → (AllUsed array × (key ≡ negsuc 0)) ⊎ ((i : ℕ) × FirstUnused array i × (key ≡ pos i)))
worker_key_create_lem s id d = elim (Option-cases (find id s.keys)) [
  | inl e ↦ rw (worker_key_create-none s id d e) (refl, λ _. refl, λ array e'. cc)
  | inr (a, e) ↦ (
    ap (λ r. r.0) (worker_key_create-some s id d a e),
    λ e'. cc,
    λ array e'. rw (worker_key_create-some s id d array e') (take_key_zero d array),
  )
]

-- The state of a worker after a task's calls on its specific values.
abbrev pub after_calls : Specifics → ℕ → List KeyCall → Specifics
after_calls s id [] = s
after_calls s id (create d ∷ calls) = after_calls (worker_key_create s id d).0 id calls
after_calls s id (delete key ∷ calls) = after_calls (worker_key_delete s id key).0 id calls
after_calls s id (assign key p ∷ calls) = after_calls (worker_set_specific s id key p).0 id calls

worker_key_delete-0 : (s : Specifics) (id : ℕ) (key : ℤ) → (worker_key_delete s id key).0 ≡ s
unfolding worker_key_delete
worker_key_delete-0 s id key = ground arith

worker_set_specific-0 :
    (s : Specifics) (id : ℕ) (key : ℤ) (p : Option ℕ) → (worker_set_specific s id key p).0 ≡ s
unfolding worker_set_specific
worker_set_specific-0 s id key p = ground arith

after_calls_lem : (s : Specifics) (id : ℕ) (calls : List KeyCall) → after_calls s id calls ≡ s
after_calls_lem s id [] = refl
after_calls_lem s id (create d ∷ calls) =
    rw (worker_key_create_lem s id d).0 (after_calls_lem s id calls)
after_calls_lem s id (delete key ∷ calls) =
    rw (worker_key_delete-0 s id key) (after_calls_lem s id calls)
after_calls_lem s id (assign key p ∷ calls) =
    rw (worker_set_specific-0 s id key p) (after_calls_lem s id calls)

slot-replicate :
    (n k : ℕ)
    → (get_elem? {A = Option ℕ} (replicate n none) k ≡ none)
      ⊎ (get_elem? {A = Option ℕ} (replicate n none) k ≡ some none)
slot-replicate zero k = inl refl
slot-replicate (suc n) zero = inr refl
slot-replicate (suc n) (suc k) = slot-replicate n k

get-no_specific :
    (s : Specifics) (id : ℕ) (key : ℤ)
    → find id s.values ≡ some no_specific
    → worker_get_specific s id key ≡ none
unfolding worker_get_specific slot
get-no_specific s id (pos k) e = elim (slot-replicate 32 k) [
  | inl e' ↦ rw (e, worker_get_specific, e') refl
  | inr e' ↦ rw (e, worker_get_specific, e') refl
]
get-no_specific s id (negsuc k) e = rw (e, worker_get_specific) refl

create-no_keys :
    (s : Specifics) (id d : ℕ)
    → find id s.keys ≡ some no_keys
    → (worker_key_create s id d).1 ≡ pos 0
unfolding take_key
create-no_keys s id d e = rw (worker_key_create-some s id d no_keys e) refl

-- The values never last. Of a runner that a worker manager has just given its arrays, the tasks read null
-- at every key and create key 0, whatever they created, deleted and set before.
pub values_are_lost :
    (s : Specifics) (id d : ℕ) (key : ℤ) (calls : List KeyCall)
    → let start = update_specific (update_specific_keys s id no_keys) id no_specific in
      let now = after_calls start id calls in
      (worker_get_specific now id key ≡ none) × ((worker_key_create now id d).1 ≡ pos 0)
unfolding update_specific update_specific_keys
values_are_lost s id d key calls =
    rw
      (after_calls_lem (update_specific (update_specific_keys s id no_keys) id no_specific) id
        calls)
      (
        get-no_specific (update_specific (update_specific_keys s id no_keys) id no_specific) id key
            (find-insert_same id no_specific s.values),
        create-no_keys (update_specific (update_specific_keys s id no_keys) id no_specific) id d
            (find-insert_same id no_keys s.keys),
      )
