-- ===== src/Scheduler/Sorting.antt =====
-- `SortNoLock`: the order of the groups.
use mathlib.Core.List.Perm
use mathlib.Core.List.{Perm}
use footstone.Base.{
  ◌≡◌, refl, sym, ap, inl, inr, Bool-cases, false, List, [], ◌∷◌, length, ltb, Outcome, ok, arith,
}
use footstone.Base.Int.{ℤ, ◌≤ℤ◌, ltb_ℤ}
use footstone.Scheduler.{Heap, Group, Worker}
use footstone.Scheduler.Next.{
  sort_key, with_keys, insert_group, sort_groups, groups_of, sort_no_lock,
}

-- The comparison can read every group: none is empty, and no key leaves int64_t.
abbrev pub IsReadable : Heap → List Group → Type 0
IsReadable heap [] = Unit {0}
IsReadable heap (g ∷ groups) = ((k : ℤ) × (sort_key heap g ≡ ok k)) × IsReadable heap groups

-- No group of the list has a lesser key than `g`.
abbrev pub NoneLess : Heap → Group → List Group → Type 0
NoneLess heap g [] = Unit {0}
NoneLess heap g (h ∷ groups) =
    ((a b : ℤ) → sort_key heap g ≡ ok a → sort_key heap h ≡ ok b → a ≤ℤ b) × NoneLess heap g groups

abbrev pub InOrder : Heap → List Group → Type 0
InOrder heap [] = Unit {0}
InOrder heap (g ∷ groups) = NoneLess heap g groups × InOrder heap groups

abbrev AreKeys : Heap → List (ℤ × Group) → Type 0
AreKeys heap [] = Unit {0}
AreKeys heap ((k, g) ∷ keyed) = (sort_key heap g ≡ ok k) × AreKeys heap keyed

abbrev From : ℤ → List (ℤ × Group) → Type 0
From k [] = Unit {0}
From k ((k', _) ∷ keyed) = (k ≤ℤ k') × From k keyed

abbrev Ascending : List (ℤ × Group) → Type 0
Ascending [] = Unit {0}
Ascending ((k, _) ∷ keyed) = From k keyed × Ascending keyed

with_keys_lem :
    (heap : Heap) (groups : List Group)
    → IsReadable heap groups
    → (keyed : List (ℤ × Group)) × (with_keys heap groups ≡ ok keyed)
      × (groups_of keyed ≡ groups)
      × AreKeys heap keyed
unfolding with_keys
with_keys_lem heap [] readable = ([], refl, refl, tt)
with_keys_lem heap (g ∷ groups) ((k, e), readable) =
    let (keyed, e', same, keys) = with_keys_lem heap groups readable in
    ((k, g) ∷ keyed, rw (e, e') refl, ap (λ l. g ∷ l) same, (e, keys))

From-lower : (a b : ℤ) (keyed : List (ℤ × Group)) → a ≤ℤ b → From b keyed → From a keyed
From-lower a b [] h from = tt
From-lower a b ((k, g) ∷ keyed) h (l, from) = (omega arith, From-lower a b keyed h from)

insert-From :
    (a k : ℤ) (g : Group) (keyed : List (ℤ × Group))
    → a ≤ℤ k
    → From a keyed
    → From a (insert_group (k, g) keyed)
unfolding insert_group
insert-From a k g [] h from = (h, tt)
insert-From a k g ((k', g') ∷ keyed) h (l, from) = elim (Bool-cases (ltb_ℤ k' k)) [
  | inl e ↦ rw e (l, insert-From a k g keyed h from)
  | inr e ↦ rw e (h, (l, from))
]

insert-Ascending :
    (k : ℤ) (g : Group) (keyed : List (ℤ × Group))
    → Ascending keyed
    → Ascending (insert_group (k, g) keyed)
unfolding insert_group
insert-Ascending k g [] asc = (tt, tt)
insert-Ascending k g ((k', g') ∷ keyed) (from, asc) = elim (Bool-cases (ltb_ℤ k' k)) [
  | inl e ↦ rw e (insert-From k' k g keyed (ground arith) from, insert-Ascending k g keyed asc)
  | inr e ↦ let l = le k k' e in rw e ((l, From-lower k k' keyed l from), (from, asc))
]
  where
    le : (k k' : ℤ) → ltb_ℤ k' k ≡ false → k ≤ℤ k'
    le k k' e = ground arith

insert-perm :
    (e : ℤ × Group) (keyed : List (ℤ × Group))
    → Perm (groups_of (insert_group e keyed)) (groups_of (e ∷ keyed))
unfolding insert_group
insert-perm (k, g) [] = Perm.refl (g ∷ [])
insert-perm (k, g) ((k', g') ∷ keyed) = elim (Bool-cases (ltb_ℤ k' k)) [
  | inl e ↦
      rw e (Perm.trans (Perm.cons g' (insert-perm (k, g) keyed)) (Perm.swap g g' (groups_of keyed)))
  | inr e ↦ rw e (Perm.refl (g ∷ g' ∷ groups_of keyed))
]

insert-AreKeys :
    (heap : Heap) (k : ℤ) (g : Group) (keyed : List (ℤ × Group))
    → sort_key heap g ≡ ok k
    → AreKeys heap keyed
    → AreKeys heap (insert_group (k, g) keyed)
unfolding insert_group
insert-AreKeys heap k g [] key keys = (key, tt)
insert-AreKeys heap k g ((k', g') ∷ keyed) key (key', keys) = elim (Bool-cases (ltb_ℤ k' k)) [
  | inl e ↦ rw e (key', insert-AreKeys heap k g keyed key keys)
  | inr e ↦ rw e (key, (key', keys))
]

sort_groups_lem :
    (heap : Heap) (keyed : List (ℤ × Group))
    → AreKeys heap keyed
    → Ascending (sort_groups keyed)
      × Perm (groups_of (sort_groups keyed)) (groups_of keyed)
      × AreKeys heap (sort_groups keyed)
unfolding sort_groups
sort_groups_lem heap [] keys = (tt, Perm.refl [], tt)
sort_groups_lem heap ((k, g) ∷ keyed) (key, keys) =
    let (asc, perm, keys') = sort_groups_lem heap keyed keys in
    (
      insert-Ascending k g (sort_groups keyed) asc,
      Perm.trans (insert-perm (k, g) (sort_groups keyed)) (Perm.cons g perm),
      insert-AreKeys heap k g (sort_groups keyed) key keys',
    )

same_key : {m : Outcome ℤ} {a b : ℤ} → m ≡ ok a → m ≡ ok b → a ≡ b
same_key e e' = cc

same_keys : (k k' a b : ℤ) → k ≡ a → k' ≡ b → k ≤ℤ k' → a ≤ℤ b
same_keys k k' a b e e' l = rw (sym e, sym e') l

perm_to : {xs ys zs : List Group} → Perm xs ys → ys ≡ zs → Perm xs zs
perm_to p e = rw (sym e) p

From-NoneLess :
    (heap : Heap) (k : ℤ) (g : Group) (keyed : List (ℤ × Group))
    → sort_key heap g ≡ ok k
    → From k keyed
    → AreKeys heap keyed
    → NoneLess heap g (groups_of keyed)
From-NoneLess heap k g [] key from keys = tt
From-NoneLess heap k g ((k', g') ∷ keyed) key (l, from) (key', keys) = (
  λ a b e e'. same_keys k k' a b (same_key key e) (same_key key' e') l,
  From-NoneLess heap k g keyed key from keys,
)

Ascending-InOrder :
    (heap : Heap) (keyed : List (ℤ × Group))
    → Ascending keyed
    → AreKeys heap keyed
    → InOrder heap (groups_of keyed)
Ascending-InOrder heap [] asc keys = tt
Ascending-InOrder heap ((k, g) ∷ keyed) (from, asc) (key, keys) =
    (From-NoneLess heap k g keyed key from keys, Ascending-InOrder heap keyed asc keys)

short-InOrder :
    (heap : Heap) (groups : List Group) → ltb 1 (length groups) ≡ false → InOrder heap groups
short-InOrder heap [] e = tt
short-InOrder heap (g ∷ []) e = (tt, tt)
short-InOrder heap (g ∷ h ∷ groups) e = ground arith

-- Where the comparison can read all groups, `SortNoLock` returns. It puts the groups in order of their
-- keys, priority as an int32_t times running time of the first runner, loses none, and changes nothing else.
pub sort_no_lock_lem :
    (heap : Heap) (w : Worker)
    → IsReadable heap w.running_groups
    → (sorted : List Group) × (sort_no_lock heap w ≡ ok (record w { running_groups = sorted }))
      × Perm sorted w.running_groups
      × InOrder heap sorted
unfolding sort_no_lock
sort_no_lock_lem heap w readable = elim (Bool-cases (ltb 1 (length w.running_groups))) [
  | inl e ↦
      let (keyed, e', same, keys) = with_keys_lem heap w.running_groups readable in
      let (asc, perm, keys') = sort_groups_lem heap keyed keys in
      (
        groups_of (sort_groups keyed),
        rw (e, sort_no_lock, e') refl,
        perm_to perm same,
        Ascending-InOrder heap (sort_groups keyed) asc keys',
      )
  | inr e ↦ (
    w.running_groups,
    rw (e, sort_no_lock) refl,
    Perm.refl w.running_groups,
    short-InOrder heap w.running_groups e,
  )
]
