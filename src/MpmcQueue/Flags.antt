-- ===== src/MpmcQueue/Flags.antt =====
-- What `pop` of mpmc_queue.h leaves in a cell whose writer was too late to move `head_`.
use footstone.SpscQueue.Refine.{wrap_cases}
use footstone.Base.Store.{write, write_same}
use footstone.Base.{
  ℕ, suc, ◌+◌, ◌%◌, ◌<◌, ◌≡◌, ◌≢◌, refl, sym, ap, ◌∙◌, ◌≤◌, false, none, some, arith, ne→==_false,
  eq→==,
}
use footstone.MpmcQueue.{Ring, pop, push}

other_index : (limit i : ℕ) → 0 < limit → i ≤ limit → (i + 1) % suc limit ≢ i
other_index limit i pos le e = omega (arith, e, wrap_cases limit (i + 1) (omega arith))

module _ {A : Type 0} (limit : ℕ) where
  -- A ring whose next cell, at `i`, is written and ready, while `head_` still stands at it.
  pub record IsLate (i : ℕ) (q : Ring A) : Type 0 where
    pub tail_at : q.super.tail ≡ i
    pub head_at : q.super.head ≡ i
    pub ready : (q.super.block i).flag ≡ i

  -- The ring after `pop` has moved `head_` and taken the element.
  abbrev taken : ℕ → Ring A → Ring A
  taken i q = record q {
    super = record q.super {
      block = write i (record (q.super.block i) { flag = limit }) q.super.block;
      head = (i + 1) % suc limit;
      tail = (i + 1) % suc limit;
    };
  }

  pop-late :
      (i : ℕ) (q : Ring A) (rounds : ℕ)
      → IsLate i q
      → (i + 1) % suc limit ≢ i
      → pop limit (suc (suc rounds)) q ≡ some (taken i q, some (q.super.block i).data_)
  unfolding pop
  pop-late i q rounds late other =
      rw
        (
          late.tail_at,
          late.head_at,
          eq→== i i refl,
          late.ready,
          eq→== i i refl,
          ne→==_false i ((i + 1) % suc limit) (λ e. other (sym e)),
          write_same i (record (q.super.block i) { flag = limit }) q.super.block,
        )
        refl

  -- `pop` moves `head_` over a cell that is ready and takes its element, in two rounds. The cell is not ready
  -- any more, unless it is the last.
  pop_late_lem :
      (i : ℕ) (q : Ring A) (rounds : ℕ)
      → IsLate i q
      → 0 < limit
      → i < limit
      → (q' : Ring A) × (pop limit (suc (suc rounds)) q ≡ some (q', some (q.super.block i).data_))
        × (q'.super.head ≡ i + 1)
        × (q'.super.tail ≡ i + 1)
        × ((q'.super.block i).flag ≢ i)
  pop_late_lem i q rounds late pos low =
      let next : (i + 1) % suc limit ≡ i + 1 =
        omega (arith, wrap_cases limit (i + 1) (omega arith)) in
      (
        taken i q,
        pop-late i q rounds late (other_index limit i pos (omega arith)),
        next,
        next,
        rw (write_same i (record (q.super.block i) { flag = limit }) q.super.block)
            (λ e. omega (arith, e)),
      )

  -- All indices at the last cell, the cells as they are.
  abbrev pub at_last : Ring A → Ring A
  at_last q = record { super = record q.super { head = limit; tail = limit }; flag_ = limit }

  -- Where the next cell is the last, written and ready, and `head_` still stands at it, `pop` returns
  -- its element and the cell stays ready. When all indices stand there again, before anything is
  -- pushed, `pop` returns that element once more. After that `push` refuses and `pop` finds nothing,
  -- if the first cell is not ready.
  pub last_cell_twice :
      (q : Ring A) (rounds : ℕ)
      → IsLate limit q
      → 0 < limit
      → (q.super.block 0).flag ≢ 0
      → (q' : Ring A) × (q'' : Ring A) × (pop limit (suc (suc rounds)) q
          ≡ some (q', some (q.super.block limit).data_))
        × (pop limit (suc (suc rounds)) (at_last q') ≡ some (q'', some (q.super.block limit).data_))
        × ((y : A) → push limit (suc (suc rounds)) q'' y ≡ some (q'', false))
        × (pop limit (suc rounds) q'' ≡ some (q'', none))
  unfolding push pop
  last_cell_twice q rounds late pos first =
      let q' = taken limit q in
      let q'' = taken limit (at_last q') in
      let other = other_index limit limit pos (omega arith) in
      let same = write_same limit (record (q.super.block limit) { flag = limit }) q.super.block in
      let wraps : (limit + 1) % suc limit ≡ 0 =
        omega (arith, wrap_cases limit (limit + 1) (omega arith)) in
      let late' : IsLate limit (at_last q') = record {
        tail_at = refl;
        head_at = refl;
        ready = ap (λ node. node.flag) same;
      } in
      (
        q',
        q'',
        pop-late limit q rounds late other,
        pop-late limit (at_last q') rounds late' other
            ∙ ap (λ node. some (q'', some node.data_)) same,
        λ y. rw (eq→== ((limit + 1) % suc limit) ((limit + 1) % suc limit) refl) refl,
        rw
            (
              eq→== ((limit + 1) % suc limit) ((limit + 1) % suc limit) refl,
              wraps,
              ne→==_false 0 limit (λ e. omega (arith, e)),
              ne→==_false (q.super.block 0).flag 0 first,
            )
            refl,
      )
