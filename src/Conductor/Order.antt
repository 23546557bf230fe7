-- ===== src/Conductor/Order.antt =====
-- conductor/rpc/server.py: the order in which the tasks of an execution are handled,
-- `sorted(tasks, key=lambda t: t.index)`.
use cloudshift.Prelude.{
  ℕ, ◌≡◌, refl, ◌≤◌, List, [], ◌∷◌, All, filter, leb, ◌==◌, Bool-cases, inl, inr, arith,
}
use cloudshift.Conductor.Store.{Task}
use cloudshift.Conductor.Cancel.{insert_task, sort_tasks}
use cloudshift.Conductor.Tracking.{All-insert_task}

abbrev pub Sorted : List Task → Type 0
Sorted [] = Unit
Sorted (t ∷ ts) = All (λ u. t.index ≤ u.index) ts × Sorted ts

-- The tasks of one index, in the order of the list.
abbrev pub with_index : ℕ → List Task → List Task
with_index i ts = filter (λ t. t.index == i) ts

All-weaken :
    (i j : ℕ) (ts : List Task) → i ≤ j → All (λ u. j ≤ u.index) ts → All (λ u. i ≤ u.index) ts
All-weaken i j [] le h = tt
All-weaken i j (t ∷ ts) le (first, rest) = (omega (arith, le, first), All-weaken i j ts le rest)

insert_task-Sorted : (t : Task) (ts : List Task) → Sorted ts → Sorted (insert_task t ts)
unfolding insert_task
insert_task-Sorted t [] h = (tt, tt)
insert_task-Sorted t (u ∷ us) (first, rest) = elim (Bool-cases (leb t.index u.index)) [
  | inl h ↦
      let le : t.index ≤ u.index = ground arith in
      rw h ((le, All-weaken t.index u.index us le first), (first, rest))
  | inr h ↦
      let le : u.index ≤ t.index = ground arith in
      rw h (All-insert_task (λ v. u.index ≤ v.index) t us le first, insert_task-Sorted t us rest)
]

-- The tasks are handled in the order of their indices.
pub sort_tasks-Sorted : (ts : List Task) → Sorted (sort_tasks ts)
unfolding sort_tasks
sort_tasks-Sorted [] = tt
sort_tasks-Sorted (t ∷ ts) = insert_task-Sorted t (sort_tasks ts) (sort_tasks-Sorted ts)

with_index-insert :
    (i : ℕ) (t : Task) (ts : List Task) → with_index i (insert_task t ts) ≡ with_index i (t ∷ ts)
unfolding insert_task
with_index-insert i t [] = refl
with_index-insert i t (u ∷ us) = ground (arith, with_index-insert i t us)

-- The order is stable and loses no task: the tasks of each index are those of the list, in its
-- order.
pub with_index-sort : (i : ℕ) (ts : List Task) → with_index i (sort_tasks ts) ≡ with_index i ts
unfolding sort_tasks
with_index-sort i [] = refl
with_index-sort i (t ∷ ts) =
    ground (arith, with_index-insert i t (sort_tasks ts), with_index-sort i ts)
