-- ===== src/Scheduler/Unbinding.antt =====
-- Who is in the groups of a worker after `UnBind` of a runner.
use mathlib.Core.List.Perm
use mathlib.Core.List.{Perm, perm_middle, perm-append_left_iff, perm-append_right_iff}
use footstone.Base.{
  ℕ, ◌≡◌, refl, ap, ◌∙◌, ◌⊎◌, inl, inr, false, Bool-cases, none, some, List, [], ◌∷◌, length, arith,
  ◌==◌, ==_iff, suc,
}
use footstone.Scheduler.{
  Heap, Group, Worker, has_id, erase_runner, erase_from_groups, un_bind, find_group,
}
use footstone.Scheduler.Binding.{members, runners}

erase_runner_lem :
    (heap : Heap) (id : ℕ) (g : Group)
    → ((erase_runner heap id g ≡ none) × (has_id heap id g ≡ false))
      ⊎ ((r : ℕ) × (g' : Group) × (erase_runner heap id g ≡ some g')
          × Perm g (r ∷ g')
          × ((heap r).id ≡ id))
unfolding erase_runner has_id
erase_runner_lem heap id [] = inl (refl, refl)
erase_runner_lem heap id (r ∷ g) = elim (Bool-cases ((heap r).id == id)) [
  | inl e ↦ inr (r, g, rw e refl, Perm.refl (r ∷ g), (==_iff (heap r).id id).0 e)
  | inr e ↦ elim (erase_runner_lem heap id g) [
    | inl (nowhere, absent) ↦ inl (rw (e, nowhere) refl, rw (e, absent) refl)
    | inr (s, g', done, perm, same) ↦
        inr (s, r ∷ g', rw (e, done) refl, Perm.trans (Perm.cons r perm) (Perm.swap s r g'), same)
  ]
]

erase_from_groups_lem :
    (heap : Heap) (id : ℕ) (groups : List Group)
    → ((erase_from_groups heap id groups ≡ none) × (find_group heap id groups ≡ false))
      ⊎ ((r : ℕ) × (groups' : List Group) × (erase_from_groups heap id groups ≡ some groups')
          × Perm (members groups) (r ∷ members groups')
          × ((heap r).id ≡ id)
          × (length groups' ≡ length groups))
unfolding erase_from_groups find_group
erase_from_groups_lem heap id [] = inl (refl, refl)
erase_from_groups_lem heap id (g ∷ groups) = elim (erase_runner_lem heap id g) [
  | inr (r, g', done, perm, same) ↦
      inr
        (r, g' ∷ groups, ground arith, (perm-append_right_iff (members groups)).1 perm, same, refl)
  | inl (nowhere, absent) ↦ elim (erase_from_groups_lem heap id groups) [
    | inl (nowhere', absent') ↦ inl (ground arith, ground arith)
    | inr (r, groups', done, perm, same, as_many) ↦ inr (
      r,
      g ∷ groups',
      ground arith,
      Perm.trans ((perm-append_left_iff g).1 perm) (perm_middle g (members groups')),
      same,
      ap suc as_many,
    )
  ]
]

un_bind-running :
    (heap : Heap) (w : Worker) (runner : ℕ) (groups : List Group)
    → erase_from_groups heap (heap runner).id w.running_groups ≡ some groups
    → un_bind heap w runner ≡ record w { running_groups = groups }
unfolding un_bind
un_bind-running heap w runner groups e = rw (e, un_bind) refl

un_bind-pending :
    (heap : Heap) (w : Worker) (runner : ℕ) (groups : List Group)
    → erase_from_groups heap (heap runner).id w.running_groups ≡ none
    → erase_from_groups heap (heap runner).id w.pending_groups ≡ some groups
    → un_bind heap w runner ≡ record w { pending_groups = groups }
unfolding un_bind
un_bind-pending heap w runner groups e e' = rw (e, un_bind, e') refl

un_bind-nowhere :
    (heap : Heap) (w : Worker) (runner : ℕ)
    → erase_from_groups heap (heap runner).id w.running_groups ≡ none
    → erase_from_groups heap (heap runner).id w.pending_groups ≡ none
    → un_bind heap w runner ≡ w
unfolding un_bind
un_bind-nowhere heap w runner e e' = rw (e, un_bind, e') refl

running_perm :
    (heap : Heap) (w : Worker) (runner : ℕ) (groups : List Group) (r : ℕ)
    → erase_from_groups heap (heap runner).id w.running_groups ≡ some groups
    → Perm (members w.running_groups) (r ∷ members groups)
    → Perm (runners w) (r ∷ runners (un_bind heap w runner))
running_perm heap w runner groups r e perm =
    rw (un_bind-running heap w runner groups e)
      ((perm-append_right_iff (members w.pending_groups)).1 perm)

pending_perm :
    (heap : Heap) (w : Worker) (runner : ℕ) (groups : List Group) (r : ℕ)
    → erase_from_groups heap (heap runner).id w.running_groups ≡ none
    → erase_from_groups heap (heap runner).id w.pending_groups ≡ some groups
    → Perm (members w.pending_groups) (r ∷ members groups)
    → Perm (runners w) (r ∷ runners (un_bind heap w runner))
pending_perm heap w runner groups r e e' perm = rw (un_bind-pending heap w runner groups e e') (
    Perm.trans ((perm-append_left_iff (members w.running_groups)).1 perm)
      (perm_middle (members w.running_groups) (members groups)))

-- `UnBind` takes exactly one runner off a worker that has one with the id, and keeps all its groups, the
-- group that is empty now included. A worker without such a runner is left as it was.
pub un_bind_lem :
    (heap : Heap) (w : Worker) (runner : ℕ)
    → let w' = un_bind heap w runner in
      ((find_group heap (heap runner).id w.running_groups ≡ false)
        × (find_group heap (heap runner).id w.pending_groups ≡ false)
        × (w' ≡ w))
      ⊎ ((r : ℕ) × ((heap r).id ≡ (heap runner).id)
          × Perm (runners w) (r ∷ runners w')
          × (length w'.running_groups ≡ length w.running_groups)
          × (length w'.pending_groups ≡ length w.pending_groups))
un_bind_lem heap w runner = elim (erase_from_groups_lem heap (heap runner).id w.running_groups) [
  | inr (r, groups, done, perm, same, as_many) ↦ inr (
    r,
    same,
    running_perm heap w runner groups r done perm,
    ap (λ v. length v.running_groups) (un_bind-running heap w runner groups done) ∙ as_many,
    ap (λ v. length v.pending_groups) (un_bind-running heap w runner groups done),
  )
  | inl (nowhere, absent) ↦ elim (erase_from_groups_lem heap (heap runner).id w.pending_groups) [
    | inl (nowhere', absent') ↦
        inl (absent, absent', un_bind-nowhere heap w runner nowhere nowhere')
    | inr (r, groups, done, perm, same, as_many) ↦ inr (
      r,
      same,
      pending_perm heap w runner groups r nowhere done perm,
      ap (λ v. length v.running_groups) (un_bind-pending heap w runner groups nowhere done),
      ap (λ v. length v.pending_groups) (un_bind-pending heap w runner groups nowhere done)
          ∙ as_many,
    )
  ]
]
