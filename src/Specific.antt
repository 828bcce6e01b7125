-- ===== src/Specific.antt =====
-- src/footstone/worker.cc, the thread-specific values of a `Worker`, and the functions of
-- src/footstone/task_runner.cc that reach them. A `std::map` from runner ids is an association list in
-- the order of the ids. A pointer to data and a destructor are numbers, null is `none`.
pub mod Maps
pub mod Slots
pub mod Moves
mod Tests
use footstone.Base.Store.{write}
use footstone.Base.{
  ℕ, zero, suc, ◌+◌, Bool, true, false, not, ◌&&◌, List, [], ◌∷◌, ◌++◌, Option, none, some, length,
  get_elem?, set, replicate, ltb, ◌==◌, if◌then◌else◌, Outcome, ok, fault, bad_iterator,
  failed_check, or_fault, require, ◌>>=◌, ◌>>◌,
}
use footstone.Base.Int.{ℤ, pos, negsuc}
use footstone.Runner.{Runner}

abbrev pub keys_max : ℕ
keys_max = 32

pub record WorkerKey : Type 0 where
  pub is_used : Bool
  pub destruct : Option ℕ

abbrev pub unused_key : WorkerKey
unused_key = record { is_used = false; destruct = none }

-- `std::array<WorkerKey, kWorkerKeysMax>()` and `std::array<void *, kWorkerKeysMax>()`
abbrev pub no_keys : List WorkerKey
no_keys = replicate keys_max unused_key

abbrev pub no_specific : List (Option ℕ)
no_specific = replicate keys_max none

-- `std::map`
module _ {ℓ} {A : Type ℓ} where
  unfoldable pub find : ℕ → List (ℕ × A) → Option A
  find id [] = none
  find id ((k, v) ∷ m) = if k == id then some v else find id m

  unfoldable pub erase : ℕ → List (ℕ × A) → List (ℕ × A)
  erase id [] = []
  erase id ((k, v) ∷ m) = if k == id then m else (k, v) ∷ erase id m

  unfoldable pub insert_or_assign : ℕ → A → List (ℕ × A) → List (ℕ × A)
  insert_or_assign id a [] = (id, a) ∷ []
  insert_or_assign id a ((k, v) ∷ m) =
      if k == id
      then (id, a) ∷ m
      else if ltb id k
      then (id, a) ∷ (k, v) ∷ m
      else (k, v) ∷ insert_or_assign id a m

-- `worker_key_map_` and `specific_map_`
pub record Specifics : Type 0 where
  pub keys : List (ℕ × List WorkerKey)
  pub values : List (ℕ × List (Option ℕ))

-- The first index from `i` on whose key is not used, and the array with that key taken.
unfoldable pub take_key : ℕ → ℕ → List WorkerKey → List WorkerKey × ℤ
take_key destruct i [] = ([], negsuc 0)
take_key destruct i (k ∷ array) =
    let (array', found) = take_key destruct (suc i) array in
    if not k.is_used
    then (record { is_used = true; destruct = some destruct } ∷ array, pos i)
    else (k ∷ array', found)

-- `WorkerKeyCreate`; -1 says that it failed. `auto array` copies the array, and the copy is dropped.
unfoldable pub worker_key_create : Specifics → ℕ → ℕ → Specifics × ℤ
unfolding find take_key
worker_key_create s id destruct = elim (find id s.keys) [
  | none ↦ (s, negsuc 0)
  | some array ↦ let (copy, i) = take_key destruct 0 array in (s, i)
]

-- `key >= array.size()` compares unsigned numbers, so a negative key is out of range.
unfoldable pub slot {ℓ} : {A : Type ℓ} → ℤ → List A → Option (ℕ × A)
slot (negsuc k) array = none
slot (pos k) array = elim (get_elem? array k) [ none ↦ none | some a ↦ some (k, a) ]

-- `WorkerKeyDelete` changes a copy too.
unfoldable pub worker_key_delete : Specifics → ℕ → ℤ → Specifics × Bool
unfolding find slot
worker_key_delete s id key = elim (find id s.keys) [
  | none ↦ (s, false)
  | some array ↦ elim (slot key array) [
    | none ↦ (s, false)
    | some (i, k) ↦
        if not k.is_used then (s, false) else let copy = set array i unused_key in (s, true)
  ]
]

-- And so does `WorkerSetSpecific`.
unfoldable pub worker_set_specific : Specifics → ℕ → ℤ → Option ℕ → Specifics × Bool
unfolding find slot
worker_set_specific s id key p = elim (find id s.values) [
  | none ↦ (s, false)
  | some array ↦ elim (slot key array) [
    | none ↦ (s, false)
    | some (i, _) ↦ let copy = set array i p in (s, true)
  ]
]

unfoldable pub worker_get_specific : Specifics → ℕ → ℤ → Option ℕ
unfolding find slot
worker_get_specific s id key = elim (find id s.values) [
  | none ↦ none
  | some array ↦ elim (slot key array) [ none ↦ none | some (_, p) ↦ p ]
]

-- The calls `destruct(data)` of `WorkerDestroySpecificNoLock`, in order.
unfoldable pub destructions : List WorkerKey → List (Option ℕ) → List (ℕ × ℕ)
destructions [] array = []
destructions (k ∷ keys) [] = []
destructions (k ∷ keys) (p ∷ array) =
    let rest = destructions keys array in
    elim k.destruct [ none ↦ rest | some d ↦ elim p [ none ↦ rest | some x ↦ (d, x) ∷ rest ] ]

unfoldable pub worker_destroy_specific : Specifics → ℕ → Specifics × List (ℕ × ℕ)
unfolding find erase destructions
worker_destroy_specific s id = elim (find id s.keys) [
  | none ↦ (s, [])
  | some keys ↦ elim (find id s.values) [
    | none ↦ (s, [])
    | some array ↦
        (record { keys = erase id s.keys; values = erase id s.values }, destructions keys array)
  ]
]

-- The loop of `WorkerDestroySpecifics`, from the entry that `map_it` points to. `++map_it` stands before
-- the use of `map_it`, so each round works on the next entry, and goes on from that entry: if it was
-- erased, or is the end, its key is read all the same.
unfoldable pub destroy_from :
    List (ℕ × List (Option ℕ)) → Specifics → Outcome (Specifics × List (ℕ × ℕ))
unfolding find
destroy_from [] s = ok (s, [])
destroy_from (_ ∷ []) s = fault bad_iterator
destroy_from (_ ∷ (id, array) ∷ entries) s =
    let rest = destroy_from ((id, array) ∷ entries) s in
    elim (find id s.keys) [ none ↦ rest | some _ ↦ fault bad_iterator ]

unfoldable pub worker_destroy_specifics : Specifics → Outcome (Specifics × List (ℕ × ℕ))
unfolding destroy_from
worker_destroy_specifics s = destroy_from s.values s

-- `GetMovedSpecificKeys` and `GetMovedSpecific` take the array of a runner out of the map.
unfoldable pub get_moved_specific_keys : Specifics → ℕ → Specifics × List WorkerKey
unfolding find erase
get_moved_specific_keys s id = elim (find id s.keys) [
  | none ↦ (s, no_keys)
  | some array ↦ (record s { keys = erase id s.keys }, array)
]

unfoldable pub get_moved_specific : Specifics → ℕ → Specifics × List (Option ℕ)
unfolding find erase
get_moved_specific s id = elim (find id s.values) [
  | none ↦ (s, no_specific)
  | some array ↦ (record s { values = erase id s.values }, array)
]

unfoldable pub update_specific_keys : Specifics → ℕ → List WorkerKey → Specifics
unfolding insert_or_assign
update_specific_keys s id array = record s { keys = insert_or_assign id array s.keys }

unfoldable pub update_specific : Specifics → ℕ → List (Option ℕ) → Specifics
unfolding insert_or_assign
update_specific s id array = record s { values = insert_or_assign id array s.values }

-- What `is_task_running` and `local_runner` of a thread say: the id of the runner whose task it runs.
pub record Context : Type 0 where
  pub is_task_running : Bool
  pub local_runner : Option ℕ

-- The runner whose task is running, and the worker of the runner that is asked.
unfoldable pub current : Context → Runner → Outcome (ℕ × ℕ)
current c r = do
  require c.is_task_running failed_check
  id ← or_fault failed_check c.local_runner
  w ← or_fault failed_check r.worker
  ok (id, w)

-- `RunnerKeyCreate` and the functions below it, on the values of all workers.
unfoldable pub runner_key_create :
    Context → Runner → (ℕ → Specifics) → ℕ → Outcome ((ℕ → Specifics) × ℤ)
unfolding current worker_key_create
runner_key_create c r workers destruct = do
  p ← current c r
  let (s, key) = worker_key_create (workers p.1) p.0 destruct
  ok (write p.1 s workers, key)

unfoldable pub runner_key_delete :
    Context → Runner → (ℕ → Specifics) → ℤ → Outcome ((ℕ → Specifics) × Bool)
unfolding current worker_key_delete
runner_key_delete c r workers key = do
  p ← current c r
  let (s, done) = worker_key_delete (workers p.1) p.0 key
  ok (write p.1 s workers, done)

unfoldable pub runner_set_specific :
    Context → Runner → (ℕ → Specifics) → ℤ → Option ℕ → Outcome ((ℕ → Specifics) × Bool)
unfolding current worker_set_specific
runner_set_specific c r workers key data_of = do
  p ← current c r
  let (s, done) = worker_set_specific (workers p.1) p.0 key data_of
  ok (write p.1 s workers, done)

unfoldable pub runner_get_specific : Context → Runner → (ℕ → Specifics) → ℤ → Outcome (Option ℕ)
unfolding current worker_get_specific
runner_get_specific c r workers key = do
  p ← current c r
  ok (worker_get_specific (workers p.1) p.0 key)

unfoldable pub runner_destroy_specifics :
    Context → Runner → (ℕ → Specifics) → Outcome ((ℕ → Specifics) × List (ℕ × ℕ))
unfolding current worker_destroy_specific
runner_destroy_specifics c r workers = do
  p ← current c r
  let (s, calls) = worker_destroy_specific (workers p.1) p.0
  ok (write p.1 s workers, calls)
