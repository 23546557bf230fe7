-- ===== src/Conductor/Rows.antt =====
-- What a write to one task's row does to the statuses of all tasks.
use cloudshift.Prelude.{
  ℕ, ◌+◌, ◌≤◌, ◌≡◌, refl, Option, none, some, List, [], ◌∷◌, ◌==◌, if◌then◌else◌, length,
  Bool-cases, inl, inr, arith,
}
use cloudshift.Constants.{TaskStatus}
use cloudshift.Conductor.Store.{Task, Store, put_task, status_in, status_of, find_task}
use cloudshift.Conductor.Effects.{ok, err, not_found, set_task_status}
use cloudshift.Conductor.Diagram.{is_launchable}

-- How many tasks are not started yet, and of one status.
abbrev pub to_launch : Option TaskStatus → ℕ
to_launch none = 0
to_launch (some a) = if is_launchable a then 1 else 0

unfoldable pub launchable : List Task → ℕ
launchable [] = 0
launchable (t ∷ ts) = to_launch (some t.status) + launchable ts

abbrev pub set_status : ℕ → TaskStatus → List Task → List Task
set_status id v ts = put_task id (λ t. record t { status = v }) ts

abbrev pub with_status : ℕ → TaskStatus → Store → Store
with_status id v s = record s {
  execution = record s.execution { tasks = set_status id v s.execution.tasks };
}

abbrev pub replaced_status : Option TaskStatus → TaskStatus → Option TaskStatus
replaced_status none v = none
replaced_status (some _) v = some v

pub status_in-set_status :
    (id j : ℕ) (v : TaskStatus) (ts : List Task)
    → status_in j (set_status id v ts)
      ≡ (if id == j then replaced_status (status_in j ts) v else status_in j ts)
unfolding status_in put_task
status_in-set_status id j v [] = ground arith
status_in-set_status id j v (t ∷ ts) = ground (arith, status_in-set_status id j v ts)

pub launchable-set_status :
    (id : ℕ) (v : TaskStatus) (ts : List Task) {a : TaskStatus}
    → status_in id ts ≡ some a
    → launchable (set_status id v ts) + to_launch (some a) ≡ launchable ts + to_launch (some v)
unfolding status_in put_task launchable
launchable-set_status id v [] h = cc
launchable-set_status id v (t ∷ ts) {a} h = elim (Bool-cases (t.id == id)) [
  | inl same ↦ rw same (ground arith)
  | inr other ↦ rw other (omega (arith, launchable-set_status id v ts {a = a} (rw other at h)))
]

pub launchable-le-length : (ts : List Task) → launchable ts ≤ length ts
unfolding launchable
launchable-le-length [] = omega arith
launchable-le-length (t ∷ ts) = ground (arith, launchable-le-length ts)

find_task-status :
    (id : ℕ) (ts : List Task) {a : TaskStatus}
    → status_in id ts ≡ some a
    → (t : Task) × (find_task id ts ≡ some t)
unfolding status_in find_task
find_task-status id [] h = cc
find_task-status id (t ∷ ts) {a} h = elim (Bool-cases (t.id == id)) [
  | inl same ↦ (t, rw same)
  | inr other ↦ rw other (find_task-status id ts {a = a} (rw other at h))
]

find_task-missing : (id : ℕ) (ts : List Task) → status_in id ts ≡ none → find_task id ts ≡ none
unfolding status_in find_task
find_task-missing id [] h = refl
find_task-missing id (t ∷ ts) h = elim (Bool-cases (t.id == id)) [
  | inl same ↦ absurd (some-ne-none (rw same at h))
  | inr other ↦ rw other (find_task-missing id ts (rw other at h))
]
  where
    some-ne-none : some t.status ≡ none → ⊥
    some-ne-none e = cc

pub set_task_status_missing :
    (id : ℕ) (v : TaskStatus) (s : Store)
    → status_of id s ≡ none
    → set_task_status id v s ≡ (err not_found, s)
unfolding set_task_status
set_task_status_missing id v s h = rw (find_task-missing id s.execution.tasks h) refl

-- A write to a row that is there.
pub set_task_status_ok :
    (id : ℕ) (v : TaskStatus) (s : Store) {a : TaskStatus}
    → status_of id s ≡ some a
    → set_task_status id v s ≡ (ok tt, with_status id v s)
unfolding set_task_status
set_task_status_ok id v s h =
    let (t, found) = find_task-status id s.execution.tasks h in rw found refl
