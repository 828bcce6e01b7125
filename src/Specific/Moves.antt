-- ===== src/Specific/Moves.antt =====
-- How the values of a runner are destroyed, and how they move from worker to worker.
use footstone.Base.{
  ℕ, ◌≡◌, ◌≢◌, refl, inl, inr, List, [], ◌∷◌, Option, none, some, Option-cases, ok, fault,
  bad_iterator,
}
use footstone.Specific.{
  Specifics, WorkerKey, find, erase, destructions, worker_destroy_specific, destroy_from,
  worker_destroy_specifics, get_moved_specific_keys, get_moved_specific, update_specific_keys,
  update_specific,
}
use footstone.Specific.Maps.{
  IsMap, find-insert_same, find-insert_ne, find-erase_same, find-erase_ne, erase-IsMap,
  insert-IsMap,
}

-- Both maps of a worker have ascending keys.
abbrev pub IsMaps : Specifics → Type 0
IsMaps s = IsMap s.keys × IsMap s.values

worker_destroy_specific-some :
    (s : Specifics) (id : ℕ) (keys : List WorkerKey) (array : List (Option ℕ))
    → find id s.keys ≡ some keys
    → find id s.values ≡ some array
    → worker_destroy_specific s id
      ≡ (record { keys = erase id s.keys; values = erase id s.values }, destructions keys array)
unfolding worker_destroy_specific
worker_destroy_specific-some s id keys array e e' = rw (e, e', worker_destroy_specific) refl

worker_destroy_specific-none :
    (s : Specifics) (id : ℕ) → find id s.keys ≡ none → worker_destroy_specific s id ≡ (s, [])
unfolding worker_destroy_specific
worker_destroy_specific-none s id e = rw (e, worker_destroy_specific) refl

-- `WorkerDestroySpecific` of a runner that has both arrays, in maps that are in order, destroys its data and
-- forgets the arrays: a second call has nothing to destroy, and other runners keep what they have.
worker_destroy_specific_lem :
    (s : Specifics) (id : ℕ) (keys : List WorkerKey) (array : List (Option ℕ))
    → IsMaps s
    → find id s.keys ≡ some keys
    → find id s.values ≡ some array
    → let (s', calls) = worker_destroy_specific s id in
      (calls ≡ destructions keys array)
      × (worker_destroy_specific s' id ≡ (s', []))
      × IsMaps s'
      × ((j : ℕ) → j ≢ id → (find j s'.keys ≡ find j s.keys) × (find j s'.values ≡ find j s.values))
worker_destroy_specific_lem s id keys array (m, m') e e' =
    rw (worker_destroy_specific-some s id keys array e e') (
      refl,
      worker_destroy_specific-none (record { keys = erase id s.keys; values = erase id s.values })
          id (find-erase_same id s.keys m),
      (erase-IsMap id s.keys m, erase-IsMap id s.values m'),
      λ j ne. (find-erase_ne id s.keys j ne, find-erase_ne id s.values j ne),
    )

destroy_from-faults :
    (e : ℕ × List (Option ℕ)) (entries : List (ℕ × List (Option ℕ))) (s : Specifics)
    → destroy_from (e ∷ entries) s ≡ fault bad_iterator
unfolding destroy_from
destroy_from-faults e [] s = refl
destroy_from-faults e (f ∷ entries) s = elim (Option-cases (find f.0 s.keys)) [
  | inl g ↦ rw (g, destroy_from) (destroy_from-faults f entries s)
  | inr (_, g) ↦ rw (g, destroy_from) refl
]

-- `WorkerDestroySpecifics`, which the destructor of `Worker` calls, is undefined for every worker that has
-- values, and destroys none otherwise.
destroy_specifics_outcomes :
    (s : Specifics)
    → (s.values ≡ [] → worker_destroy_specifics s ≡ ok (s, []))
      × (s.values ≢ [] → worker_destroy_specifics s ≡ fault bad_iterator)
unfolding worker_destroy_specifics destroy_from
destroy_specifics_outcomes s = (λ e. rw e refl, λ ne. not_empty s.values ne)
  where
    not_empty :
        (entries : List (ℕ × List (Option ℕ)))
        → entries ≢ []
        → destroy_from entries s ≡ fault bad_iterator
    not_empty [] ne = absurd (ne refl)
    not_empty (e ∷ entries) ne = destroy_from-faults e entries s

get_moved_specific_keys-some :
    (s : Specifics) (id : ℕ) (keys : List WorkerKey)
    → find id s.keys ≡ some keys
    → get_moved_specific_keys s id ≡ (record s { keys = erase id s.keys }, keys)
unfolding get_moved_specific_keys
get_moved_specific_keys-some s id keys e = rw (e, get_moved_specific_keys) refl

get_moved_specific-some :
    (s : Specifics) (id : ℕ) (array : List (Option ℕ))
    → find id s.values ≡ some array
    → get_moved_specific s id ≡ (record s { values = erase id s.values }, array)
unfolding get_moved_specific
get_moved_specific-some s id array e = rw (e, get_moved_specific) refl

-- The four steps by which `WorkerManager` moves a runner between workers, whose maps are in order, carry its
-- arrays over, take them from the first worker, and touch neither keys nor values of another runner.
pub move_specifics :
    (from to : Specifics) (id : ℕ) (keys : List WorkerKey) (array : List (Option ℕ))
    → IsMaps from
    → IsMaps to
    → find id from.keys ≡ some keys
    → find id from.values ≡ some array
    → let (from1, moved_keys) = get_moved_specific_keys from id in
      let (from2, moved) = get_moved_specific from1 id in
      let to2 = update_specific (update_specific_keys to id moved_keys) id moved in
      (find id to2.keys ≡ some keys)
      × (find id to2.values ≡ some array)
      × (find id from2.keys ≡ none)
      × (find id from2.values ≡ none)
      × IsMaps from2
      × IsMaps to2
      × ((j : ℕ)
          → j ≢ id
          → (find j to2.keys ≡ find j to.keys)
            × (find j from2.keys ≡ find j from.keys)
            × (find j to2.values ≡ find j to.values)
            × (find j from2.values ≡ find j from.values))
unfolding update_specific update_specific_keys
move_specifics from to id keys array (m, m') (n, n') e e' =
    rw
      (
        get_moved_specific_keys-some from id keys e,
        get_moved_specific-some (record from { keys = erase id from.keys }) id array e',
      )
      (
        find-insert_same id keys to.keys,
        find-insert_same id array to.values,
        find-erase_same id from.keys m,
        find-erase_same id from.values m',
        (erase-IsMap id from.keys m, erase-IsMap id from.values m'),
        (insert-IsMap id keys to.keys n, insert-IsMap id array to.values n'),
        λ j ne. (
          find-insert_ne id keys to.keys j ne,
          find-erase_ne id from.keys j ne,
          find-insert_ne id array to.values j ne,
          find-erase_ne id from.values j ne,
        ),
      )
