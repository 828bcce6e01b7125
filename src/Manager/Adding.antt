-- ===== src/Manager/Adding.antt =====
-- Which workers get the runners that a manager is given.
use footstone.Base.{
  ℕ, ◌≡◌, ◌≢◌, refl, sym, ap, ◌∙◌, true, List, [], ◌∷◌, ◌++◌, append_assoc, append-nil, map, ◌==◌,
  ◌+◌, not, some, ne→==_false, if◌then◌else◌, Outcome, ok, ◌>>=◌,
}
use footstone.Base.Store.{write}
use footstone.Runner.{default_group_id}
use footstone.Scheduler.{Worker, bind}
use footstone.Manager.{Manager, add_task_runner, bind_to, next_index, update_worker_specific}

-- `AddTaskRunner` of each runner in turn.
unfoldable pub add_all : Manager → List ℕ → Outcome Manager
unfolding add_task_runner
add_all m [] = ok m
add_all m (r ∷ rs) = add_task_runner m r >>= λ m'. add_all m' rs

abbrev pub alone : ℕ → List ℕ
alone r = r ∷ []

-- The manager with these workers, at the first of them.
abbrev pub at_first : Manager → Worker → List Worker → Manager
at_first m w ws = record m { workers = w ∷ ws; index = 0 }

add_lem :
    (m : Manager) (w : Worker) (ws : List Worker) (r : ℕ)
    → m.size ≢ 1
    → (m' : Manager) × (w' : Worker) × (add_task_runner (at_first m w ws) r
        ≡ ok (at_first m' w' ws))
      × (m'.size ≡ m.size)
      × (w'.pending_groups ≡ w.pending_groups ++ (alone r ∷ []))
unfolding add_task_runner bind_to bind next_index update_worker_specific
add_lem m w ws r many =
    let heap = write r (record (m.heap r) { worker = some 0 }) m.heap in
    let id = (heap r).group_id in
    (
      update_worker_specific (record m { heap = heap }) 0 (r ∷ []),
      record w {
        group_id = if not (id == default_group_id) then id else w.group_id;
        pending_groups = w.pending_groups ++ (alone r ∷ []);
        need_balance = true;
        notified = w.notified + 1;
      },
      rw (ne→==_false m.size 1 many) refl,
      refl,
      refl,
    )

-- A manager that stands at its first worker, with any size but one, gives every runner to that worker, as a
-- group of its own; all other workers stay as they are.
add_all_lem :
    (m : Manager) (w : Worker) (ws : List Worker) (rs : List ℕ)
    → m.size ≢ 1
    → (m' : Manager) × (w' : Worker) × (add_all (at_first m w ws) rs ≡ ok (at_first m' w' ws))
      × (m'.size ≡ m.size)
      × (w'.pending_groups ≡ w.pending_groups ++ map alone rs)
unfolding add_all
add_all_lem m w ws [] many = (m, w, refl, refl, sym (append-nil w.pending_groups))
add_all_lem m w ws (r ∷ rs) many =
    let (m1, w1, e1, s1, p1) = add_lem m w ws r many in
    let (m2, w2, e2, s2, p2) = add_all_lem m1 w1 ws rs (λ e. many (sym s1 ∙ e)) in
    (
      m2,
      w2,
      rw e1 e2,
      s2 ∙ s1,
      p2
          ∙ ap (λ l. l ++ map alone rs) p1
          ∙ append_assoc w.pending_groups (alone r ∷ []) (map alone rs),
    )
