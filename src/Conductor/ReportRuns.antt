-- ===== src/Conductor/ReportRuns.antt =====
-- Every report of a worker moves the tasks along the diagram.
use cloudshift.Prelude.{
  ℕ, suc, ◌≡◌, refl, Bool, true, Option, none, some, List, [], ◌∷◌, length, ◌==◌, Bool-cases, ◌⊎◌,
  inl, inr, arith,
}
use cloudshift.Conductor.Store.{
  Task, Execution, Store, World, find_task, status_in, status_of, tasks_of,
}
use cloudshift.Conductor.Effects.{M, not_found, ◌>>=◌, get_task}
use cloudshift.Conductor.Engine.{run_advance, run_cancel}
use cloudshift.Conductor.Rows.{launchable-le-length}
use cloudshift.Conductor.Evolves.{Distinct, ids_of}
use cloudshift.Conductor.Runs.{Runs, Runs-raise}
use cloudshift.Conductor.CancelRuns.{Fresh}
use cloudshift.Conductor.AdvanceRuns.{advance_execution_state-Advances, cancel_tasks_execution-Runs}

module _ (n : ℕ) (w : World) where
  -- The fuel that the handlers give is enough, so nothing is asked of it any more.
  pub run_advance-Runs :
      (e : Execution) (requery : Bool) (name : Option ℕ) (s : Store)
      → Distinct (ids_of s)
      → Fresh requery e s
      → Runs n (run_advance w e requery name) s
  unfolding run_advance
  run_advance-Runs e requery name s d fresh =
      let r =
        advance_execution_state-Advances (suc (length (tasks_of s))) w e requery name s d fresh in
      record {
        ran = record {
          evolves = r.ran.evolves;
          fueled = λ _. r.ran.fueled (omega (arith, launchable-le-length (tasks_of s)));
        };
      }

  pub run_cancel-Runs :
      (e : Execution) (force : Bool) (s : Store)
      → Distinct (ids_of s)
      → Runs n (run_cancel w e true force) s
  unfolding run_cancel
  run_cancel-Runs e force s d =
      let r = cancel_tasks_execution-Runs (suc (length (tasks_of s))) w e true force s d tt in
      record {
        ran = record {
          evolves = r.ran.evolves;
          fueled = λ _. r.ran.fueled (omega (arith, launchable-le-length (tasks_of s)));
        };
      }

pub find_task-cases :
    (id : ℕ) (ts : List Task)
    → (find_task id ts ≡ none)
      ⊎ ((t : Task) × (find_task id ts ≡ some t) × (status_in id ts ≡ some t.status))
unfolding find_task status_in
find_task-cases id [] = inl refl
find_task-cases id (t ∷ ts) = elim (Bool-cases (t.id == id)) [
  | inl same ↦ inr (t, rw same, rw same)
  | inr other ↦ rw other (find_task-cases id ts)
]

-- A handler begins by reading the task's row.
pub Runs-get_task :
    {A : Type 0} (n id : ℕ) (f : Task → M A) (s : Store)
    → ((t : Task) → status_of id s ≡ some t.status → Runs n (f t) s)
    → Runs n (get_task id >>= f) s
unfolding get_task
Runs-get_task n id f s rest = elim (find_task-cases id (tasks_of s)) [
  | inl missing ↦ record { ran = rw missing (Runs-raise {n = n} not_found s (λ e. cc)).ran }
  | inr (t, found, now) ↦ record { ran = rw found (rest t now).ran }
]
