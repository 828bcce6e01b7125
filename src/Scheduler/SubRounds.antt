-- ===== src/Scheduler/SubRounds.antt =====
-- A sub-runner that is added and removed again.
use footstone.Base.{
  ℕ, ◌+◌, ◌≡◌, refl, sym, ap, ◌∙◌, true, false, ◌||◌, none, some, List, ok, ◌>>=◌, ◌==◌, ==_iff,
  Bool-cases, inl, inr,
}
use footstone.Base.Store.{write, write_same}
use footstone.Time.{Point}
use footstone.Runner.{Runner}
use footstone.Scheduler.Next.{Next}
use footstone.Scheduler.Binding.{push_child_lem}
use footstone.Scheduler.Subs.{add_sub_task_runner, remove_sub_task_runner}
use footstone.Scheduler.{Heap, Group, Worker, find_group, bind_group, erase_from_groups, un_bind}
use footstone.Scheduler.Erasing.{
  SameIds, find_group-SameIds, erase_from_groups-none, erase-push_child,
}

write-SameIds :
    (heap : Heap) (r : ℕ) (runner : Runner)
    → runner.id ≡ (heap r).id
    → SameIds heap (write r runner heap)
unfolding write
write-SameIds heap r runner e i = elim (Bool-cases (i == r)) [
  | inl same ↦ rw same (e ∙ ap (λ k. (heap k).id) (sym ((==_iff i r).0 same)))
  | inr other ↦ rw other
]

un_bind_eq :
    (heap : Heap) (w : Worker) (sub : ℕ) (groups : List Group)
    → erase_from_groups heap (heap sub).id w.running_groups ≡ some groups
    → un_bind heap w sub ≡ record w { running_groups = groups }
unfolding un_bind
un_bind_eq heap w sub groups e = rw (un_bind, e) refl

un_bind_eq_pending :
    (heap : Heap) (w : Worker) (sub : ℕ) (groups : List Group)
    → erase_from_groups heap (heap sub).id w.running_groups ≡ none
    → erase_from_groups heap (heap sub).id w.pending_groups ≡ some groups
    → un_bind heap w sub ≡ record w { pending_groups = groups }
unfolding un_bind
un_bind_eq_pending heap w sub groups e e' = rw (un_bind, e, e') refl

module _ (heap heap' : Heap) (same : SameIds heap heap') (w : Worker) (father sub : ℕ) where
  fresh_there :
      (groups : List Group)
      → find_group heap (heap sub).id groups ≡ false
      → find_group heap' (heap' sub).id groups ≡ false
  fresh_there groups e =
      find_group-SameIds heap heap' same (heap' sub).id groups
      ∙ ap (λ id. find_group heap id groups) (same sub)
      ∙ e

  un_bind-bind_group :
      (find_group heap father w.running_groups || find_group heap father w.pending_groups) ≡ true
      → find_group heap (heap sub).id w.running_groups ≡ false
      → find_group heap (heap sub).id w.pending_groups ≡ false
      → (w' : Worker) × (bind_group heap w father sub ≡ ok w')
        × (un_bind heap' w' sub ≡ w)
        × (w'.notified ≡ w.notified)
  unfolding bind_group
  un_bind-bind_group found new new' = elim (push_child_lem heap father sub w.running_groups) [
    | inr (gs, done, _, _, _) ↦ (
      record w { running_groups = gs },
      rw (done, bind_group) refl,
      un_bind_eq heap' (record w { running_groups = gs }) sub w.running_groups
          (erase-push_child heap' sub heap father w.running_groups gs
            (fresh_there w.running_groups new) done),
      refl,
    )
    | inl (nowhere, absent) ↦ elim (push_child_lem heap father sub w.pending_groups) [
      | inr (gs, done, _, _, _) ↦ (
        record w { pending_groups = gs },
        rw (nowhere, bind_group, done) refl,
        un_bind_eq_pending heap' (record w { pending_groups = gs }) sub w.pending_groups
            (erase_from_groups-none heap' sub w.running_groups (fresh_there w.running_groups new))
            (erase-push_child heap' sub heap father w.pending_groups gs
              (fresh_there w.pending_groups new') done),
        refl,
      )
      | inl (_, absent') ↦ let never : false ≡ true = rw (absent, absent') at found in cc
    ]
  ]

module _ (fuel : ℕ) (effect : Next → Heap × Worker → Heap × Worker) (clock : ℕ → Point)
    (heap : Heap) (w : Worker) (r sub : ℕ) where
  abbrev marked : Heap
  marked = write r (record (heap r) { has_sub_runner = true }) heap

  add_eq :
      (w' : Worker)
      → bind_group heap w (heap r).id sub ≡ ok w'
      → add_sub_task_runner fuel effect clock heap (some w) r sub false ≡ ok (marked, some w', true)
  unfolding add_sub_task_runner
  add_eq w' e = rw e

  remove_eq :
      (w' : Worker)
      → un_bind marked w' sub ≡ w
      → w'.notified ≡ w.notified
      → remove_sub_task_runner marked (some w') r (some sub) ≡ (
        write r (record (marked r) { has_sub_runner = false }) marked,
        some (record w { notified = w.notified + 1 }),
        true,
      )
  unfolding remove_sub_task_runner
  remove_eq w' e n = rw (write_same r (record (heap r) { has_sub_runner = true }) heap, e, n)

  -- A sub-runner that is added while no task runs, to a runner that is in some group of the worker, and is then
  -- removed, leaves the groups of the worker and all else of it as they were, apart from a notification more,
  -- and the runner without a sub-runner, if no runner of the worker had the id of the sub-runner before.
  pub remove-add_sub_task_runner :
      (find_group heap (heap r).id w.running_groups || find_group heap (heap r).id w.pending_groups)
        ≡ true
      → find_group heap (heap sub).id w.running_groups ≡ false
      → find_group heap (heap sub).id w.pending_groups ≡ false
      → (heap' : Heap) × ((add_sub_task_runner fuel effect clock heap (some w) r sub false >>= λ p.
            ok (remove_sub_task_runner p.0 p.1 r (some sub)))
          ≡ ok (heap', some (record w { notified = w.notified + 1 }), true))
        × ((heap' r).has_sub_runner ≡ false)
  remove-add_sub_task_runner found new new' =
      let same = write-SameIds heap r (record (heap r) { has_sub_runner = true }) refl in
      let (w', bound, back, n) =
        un_bind-bind_group heap marked same w (heap r).id sub found new new' in
      let last = record (marked r) { has_sub_runner = false } in
      (
        write r last marked,
        rw (add_eq w' bound) (ap ok (remove_eq w' back n)),
        rw (write_same r last marked),
      )
