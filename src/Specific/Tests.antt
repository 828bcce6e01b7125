-- ===== src/Specific/Tests.antt =====
-- Runs of the thread-specific values, and instances of their theorems.
use footstone.Base.{ℕ, ◌≡◌, ◌≢◌, refl, true, List, [], ◌∷◌, none, some, arith}
use footstone.Base.Int.{pos}
use footstone.Specific.{
  Specifics, WorkerKey, no_keys, no_specific, find, worker_key_create, slot, worker_get_specific,
  destructions, worker_destroy_specific, get_moved_specific_keys, get_moved_specific,
  update_specific_keys, update_specific,
}
use footstone.Specific.Slots.{create, assign, after_calls, values_are_lost}
use footstone.Specific.Moves.{IsMaps, move_specifics}

-- Runner 7 has one key with a destructor, and data for it; runner 3 has nothing.
abbrev held : WorkerKey
held = record { is_used = true; destruct = some 40 }

abbrev keys_of_7 : List WorkerKey
keys_of_7 = held ∷ []

abbrev worker : Specifics
worker = record {
  keys = (3, no_keys) ∷ (7, keys_of_7) ∷ [];
  values = (3, no_specific) ∷ (7, some 41 ∷ []) ∷ [];
}

abbrev empty_worker : Specifics
empty_worker = record { keys = []; values = [] }

destroy-worker : (worker_destroy_specific worker 7).1 ≡ (40, 41) ∷ []
unfolding worker_destroy_specific find destructions
destroy-worker = refl

get-worker : worker_get_specific worker 7 (pos 0) ≡ some 41
unfolding worker_get_specific find slot
get-worker = refl

values_are_lost_example :
    let start = update_specific (update_specific_keys worker 3 no_keys) 3 no_specific in
    let now = after_calls start 3 (create 5 ∷ assign (pos 0) (some 9) ∷ create 6 ∷ []) in
    (worker_get_specific now 3 (pos 0) ≡ none) × ((worker_key_create now 3 8).1 ≡ pos 0)
values_are_lost_example =
    values_are_lost worker 3 8 (pos 0) (create 5 ∷ assign (pos 0) (some 9) ∷ create 6 ∷ [])

worker-IsMaps : IsMaps worker
worker-IsMaps = (((omega arith, tt), (tt, tt)), ((omega arith, tt), (tt, tt)))

move_specifics_example :
    let (from1, moved_keys) = get_moved_specific_keys worker 7 in
    let (from2, moved) = get_moved_specific from1 7 in
    let to2 = update_specific (update_specific_keys empty_worker 7 moved_keys) 7 moved in
    (find 7 to2.keys ≡ some keys_of_7)
    × (find 7 to2.values ≡ some (some 41 ∷ []))
    × (find 7 from2.keys ≡ none)
    × (find 7 from2.values ≡ none)
    × IsMaps from2
    × IsMaps to2
    × ((j : ℕ)
        → j ≢ 7
        → (find j to2.keys ≡ none)
          × (find j from2.keys ≡ find j worker.keys)
          × (find j to2.values ≡ none)
          × (find j from2.values ≡ find j worker.values))
unfolding find
move_specifics_example =
    move_specifics worker empty_worker 7 keys_of_7 (some 41 ∷ []) worker-IsMaps (tt, tt) refl refl
