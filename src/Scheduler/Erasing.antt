-- ===== src/Scheduler/Erasing.antt =====
-- `BindGroup` and `UnBind` of a runner: what the one puts into a group the other takes out.
use footstone.Base.{
  ℕ, ◌≡◌, refl, sym, ap, ◌∙◌, Bool, false, ◌||◌, Option, none, some, List, [], ◌∷◌, ◌++◌, ◌==◌,
  eq→==, Bool-cases, Option-cases, inl, inr, arith,
}
use footstone.Scheduler.{
  Heap, Group, has_id, find_group, push_child, erase_runner, erase_from_groups,
}

-- Heaps with the same ids of the runners.
abbrev pub SameIds : Heap → Heap → Type 0
SameIds heap heap' = (i : ℕ) → (heap' i).id ≡ (heap i).id

module _ (heap heap' : Heap) (same : SameIds heap heap') where
  has_id-SameIds : (id : ℕ) (group : Group) → has_id heap' id group ≡ has_id heap id group
  unfolding has_id
  has_id-SameIds id [] = refl
  has_id-SameIds id (r ∷ group) = rw (same r, has_id-SameIds id group)

  pub find_group-SameIds :
      (id : ℕ) (groups : List Group) → find_group heap' id groups ≡ find_group heap id groups
  unfolding find_group
  find_group-SameIds id [] = refl
  find_group-SameIds id (g ∷ groups) = rw (has_id-SameIds id g, find_group-SameIds id groups)

same_some {ℓ} : {A : Type ℓ} {x y : A} → some x ≡ some y → x ≡ y
same_some e = cc

or_false : (a b : Bool) → (a || b) ≡ false → (a ≡ false) × (b ≡ false)
or_false a b e = ground arith

module _ (heap : Heap) (id : ℕ) (g : Group) (groups : List Group) where
  erase_here :
      (g' : Group)
      → erase_runner heap id g ≡ some g'
      → erase_from_groups heap id (g ∷ groups) ≡ some (g' ∷ groups)
  unfolding erase_from_groups
  erase_here g' e =
      ap
        (λ o. elim o [
          | some group' ↦ some (group' ∷ groups)
          | none ↦ elim (erase_from_groups heap id groups) [
            | none ↦ none
            | some groups' ↦ some (g ∷ groups')
          ]
        ])
        e

  erase_later :
      (o : Option (List Group))
      → erase_runner heap id g ≡ none
      → erase_from_groups heap id groups ≡ o
      → erase_from_groups heap id (g ∷ groups)
        ≡ elim o [ none ↦ none | some groups' ↦ some (g ∷ groups') ]
  unfolding erase_from_groups
  erase_later o e e' =
      ap
        (λ p. elim p [
          | some group' ↦ some (group' ∷ groups)
          | none ↦ elim (erase_from_groups heap id groups) [
            | none ↦ none
            | some groups' ↦ some (g ∷ groups')
          ]
        ])
        e
      ∙ ap (λ p. elim p [ none ↦ none | some groups' ↦ some (g ∷ groups') ]) e'

module _ (heap : Heap) (child : ℕ) where
  abbrev child_id : ℕ
  child_id = (heap child).id

  erase_runner-last :
      (group : Group)
      → has_id heap child_id group ≡ false
      → erase_runner heap child_id (group ++ (child ∷ [])) ≡ some group
  unfolding has_id erase_runner
  erase_runner-last [] e = rw (eq→== (heap child).id (heap child).id refl)
  erase_runner-last (r ∷ group) e =
      let (here, rest) = or_false ((heap r).id == child_id) (has_id heap child_id group) e in
      rw (erase_runner-last group rest, here)

  erase_runner-none :
      (group : Group) → has_id heap child_id group ≡ false → erase_runner heap child_id group ≡ none
  unfolding has_id erase_runner
  erase_runner-none [] e = refl
  erase_runner-none (r ∷ group) e =
      let (here, rest) = or_false ((heap r).id == child_id) (has_id heap child_id group) e in
      rw (erase_runner-none group rest, here)

  pub erase_from_groups-none :
      (groups : List Group)
      → find_group heap child_id groups ≡ false
      → erase_from_groups heap child_id groups ≡ none
  unfolding find_group erase_from_groups
  erase_from_groups-none [] e = refl
  erase_from_groups-none (g ∷ groups) e =
      let (here, rest) = or_false (has_id heap child_id g) (find_group heap child_id groups) e in
      erase_later heap child_id g groups none (erase_runner-none g here)
        (erase_from_groups-none groups rest)

  -- A child that was put into a group is the one that is taken out.
  pub erase-push_child :
      (heap' : Heap) (id : ℕ) (groups groups' : List Group)
      → find_group heap child_id groups ≡ false
      → push_child heap' id child groups ≡ some groups'
      → erase_from_groups heap child_id groups' ≡ some groups
  unfolding find_group push_child
  erase-push_child heap' id [] groups' fresh e = cc
  erase-push_child heap' id (g ∷ groups) groups' fresh e =
      let (here, rest) =
        or_false (has_id heap child_id g) (find_group heap child_id groups) fresh in
      elim (Bool-cases (has_id heap' id g)) [
        | inl found ↦
            let e' : some ((g ++ (child ∷ [])) ∷ groups) ≡ some groups' = rw found at e in
            rw (sym (same_some e'))
              (erase_here heap child_id (g ++ (child ∷ [])) groups g (erase_runner-last g here))
        | inr other ↦ elim (Option-cases (push_child heap' id child groups)) [
          | inl none_there ↦ let never : none ≡ some groups' = rw (other, none_there) at e in cc
          | inr (gs, there) ↦
              let e' : some (g ∷ gs) ≡ some groups' = rw (other, there) at e in
              rw (sym (same_some e')) (
                erase_later heap child_id g gs (some groups) (erase_runner-none g here)
                  (erase-push_child heap' id groups gs rest there))
        ]
      ]
