-- ===== src/Conductor/CancelRuns.antt =====
-- A cancellation follows the diagram.
use cloudshift.Prelude.{
  ℕ, ◌≡◌, refl, sym, ap, ◌∙◌, Bool, true, false, not, ◌&&◌, ◌||◌, Option, none, some, List, [], ◌∷◌,
  All, if◌then◌else◌, arith,
}
use cloudshift.Constants.{TaskStatus, ExecutionStatus, is_active, is_failed_to_cancel}
use cloudshift.Conductor.Store.{
  Task, Execution, Store, World, cancel_task, status_in, status_of, tasks_of,
}
use cloudshift.Conductor.Effects.{M, pure, for_each, invoke, set_task_status, get_tasks_execution}
use cloudshift.Conductor.Status.{set_tasks_execution_status}
use cloudshift.Conductor.Cancel.{
  sort_tasks, stop_running, cancel_by_status, cancel_one, cancel_all, cancel_from,
  cancel_tasks_execution_with, has_finalized_text,
}
use cloudshift.Conductor.Diagram.{
  edge, arm, unschedule, withdraw, withdraw_starting, force_cancel, stop, let_finish, refuse_stop,
  is_stoppable,
}
use cloudshift.Conductor.Evolves.{Distinct, ids, ids_of}
use cloudshift.Conductor.Tracking.{
  Tracked, Tracked-frame, tracked_rows, All-sort_tasks, Distinct-sort_tasks,
}
use cloudshift.Conductor.Quiet.{Quiet-Runs, Quiet-invoke, set_tasks_execution_status-Quiet}
use cloudshift.Conductor.Touches.{
  Touches, Touches-pure, Touches-if, Touches-seq, Touches-try_except, Touches-invoke,
  Touches-set_task_status, set_task_status_sets,
}
use cloudshift.Conductor.Runs.{
  Runs, Runs-pure, Runs-seq, Runs-if, Runs-try_except, Runs-set_task_status,
}

module _ (w : World) (force : Bool) where
  stop_running-Touches : (t : Task) → Touches t.id (stop_running w force t)
  unfolding stop_running
  stop_running-Touches t = Touches-if t.id t.on_error _ _ (Touches-set_task_status t.id _) (
      Touches-seq t.id _ _ (Touches-set_task_status t.id _) (
        Touches-try_except t.id _ _ (Touches-invoke t.id w _)
          (λ _. Touches-set_task_status t.id _)))

  cancel_by_status-Touches :
      (a : TaskStatus) (t : Task) → Touches t.id (cancel_by_status w force a t)
  unfolding cancel_by_status
  cancel_by_status-Touches TaskStatus.scheduled t =
      Touches-if t.id _ _ _ (Touches-set_task_status t.id _) (Touches-pure t.id tt)
  cancel_by_status-Touches TaskStatus.pending t = Touches-set_task_status t.id _
  cancel_by_status-Touches TaskStatus.starting t = Touches-set_task_status t.id _
  cancel_by_status-Touches TaskStatus.running t = stop_running-Touches t
  cancel_by_status-Touches TaskStatus.failed_to_cancel t = stop_running-Touches t
  cancel_by_status-Touches TaskStatus.on_error_only t = Touches-set_task_status t.id _
  cancel_by_status-Touches _ t = Touches-pure t.id tt

  pub cancel_one-Touches : (t : Task) → Touches t.id (cancel_one w force t)
  unfolding cancel_one
  cancel_one-Touches t =
      Touches-if t.id _ _ _ (Touches-set_task_status t.id _) (cancel_by_status-Touches t.status t)

module _ (n : ℕ) (w : World) (force : Bool) where
  stop_running-Runs :
      (t : Task) (s : Store) {a : TaskStatus}
      → status_of t.id s ≡ some a
      → is_stoppable a ≡ true
      → Runs n (stop_running w force t) s
  unfolding stop_running
  stop_running-Runs t s now h =
      Runs-if t.on_error _ _ s
        (λ _. Runs-set_task_status t.id _ s now (edge (let_finish h)) (omega arith))
        (λ _. Runs-seq _ _ s (Runs-set_task_status t.id _ s now (edge (stop h)) (omega arith)) (λ _.
          let s1 : Store = (set_task_status t.id TaskStatus.cancelling s).1 in
          let q = Quiet-invoke w (cancel_task t.id force) refl in
          Runs-try_except _ _ s1 (Quiet-Runs _ s1 q) (λ _ _.
            Runs-set_task_status t.id _ (invoke w (cancel_task t.id force) s1).1
              (ap (status_in t.id) (q.hushed s1).same_tasks ∙ set_task_status_sets t.id _ s now)
              (edge refuse_stop) (omega arith))))

  cancel_by_status-Runs :
      (a : TaskStatus) (t : Task) (s : Store)
      → status_of t.id s ≡ some a
      → Runs n (cancel_by_status w force a t) s
  unfolding cancel_by_status
  cancel_by_status-Runs TaskStatus.scheduled t s now =
      Runs-if _ _ _ s (λ _. Runs-set_task_status t.id _ s now (edge unschedule) (omega arith))
        (λ _. Runs-pure tt s)
  cancel_by_status-Runs TaskStatus.pending t s now =
      Runs-set_task_status t.id _ s now (edge withdraw) (omega arith)
  cancel_by_status-Runs TaskStatus.starting t s now =
      Runs-set_task_status t.id _ s now (edge withdraw_starting) (omega arith)
  cancel_by_status-Runs TaskStatus.running t s now = stop_running-Runs t s now refl
  cancel_by_status-Runs TaskStatus.failed_to_cancel t s now = stop_running-Runs t s now refl
  cancel_by_status-Runs TaskStatus.on_error_only t s now =
      Runs-set_task_status t.id _ s now (edge arm) (omega arith)
  cancel_by_status-Runs _ t s now = Runs-pure tt s

  cancel_one-Runs : (t : Task) (s : Store) → Tracked s t → Runs n (cancel_one w force t) s
  unfolding cancel_one
  cancel_one-Runs t s now =
      Runs-if _ _ _ s
        (λ h. Runs-set_task_status t.id _ s now (edge (force_cancel (forced h))) (omega arith))
        (λ _. cancel_by_status-Runs t.status t s now)
    where
      forced :
          (force && (is_active t.status || is_failed_to_cancel t.status)) ≡ true
          → (is_active t.status || is_failed_to_cancel t.status) ≡ true
      forced h = ground arith

  -- The loop over a copy of the rows.
  cancel_each-Runs :
      (ts : List Task) (s : Store)
      → All (Tracked s) ts
      → Distinct (ids ts)
      → Runs n (for_each (cancel_one w force) ts) s
  unfolding for_each
  cancel_each-Runs [] s tracked d = Runs-pure tt s
  cancel_each-Runs (t ∷ ts) s tracked d = Runs-seq _ _ s (cancel_one-Runs t s tracked.0) (λ _.
      cancel_each-Runs ts (cancel_one w force t s).1
        (Tracked-frame s (cancel_one w force t s).1 t.id ts ((cancel_one-Touches w force t).frame s)
          d.0 tracked.1)
        d.1)

-- The caller's copy of the execution is that of the rows, or the rows are read again.
abbrev pub Fresh : Bool → Execution → Store → Type 0
Fresh true given s = Unit
Fresh false given s = given ≡ s.execution

-- Without fresh rows nothing is known of what a state advancement does.
abbrev pub Advances : ℕ → (Execution → Bool → Option ℕ → M (List ℕ)) → Type 0
Advances n advance =
    (given : Execution) (requery : Bool) (name : Option ℕ) (s : Store)
    → Distinct (ids_of s)
    → Fresh requery given s
    → Runs n (advance given requery name) s

module _ (n : ℕ) (w : World) (advance : Execution → Bool → Option ℕ → M (List ℕ))
    (advances : Advances n advance) where
  cancel_all-Runs :
      (execution : Execution) (force : Bool) (s : Store)
      → execution.tasks ≡ tasks_of s
      → Distinct (ids_of s)
      → Runs n (cancel_all w advance execution force) s
  unfolding cancel_all
  cancel_all-Runs execution force s same d =
      let ts = sort_tasks execution.tasks in
      Runs-seq _ _ s
        (cancel_each-Runs n w force ts s
          (All-sort_tasks (Tracked s) execution.tasks (rw same (tracked_rows (tasks_of s) d)))
          (Distinct-sort_tasks execution.tasks (rw same d)))
        (λ ev.
          let s1 : Store = (for_each (cancel_one w force) ts s).1 in
          Runs-seq _ _ s1 (advances execution true none s1 (rw ev.same_ids d) tt)
            (λ _. Runs-pure tt _))

  cancel_or_skip-Runs :
      (done : Bool) (execution : Execution) (force : Bool) (s : Store)
      → execution ≡ s.execution
      → Distinct (ids_of s)
      → Runs n (if done then pure tt else cancel_all w advance execution force) s
  cancel_or_skip-Runs done execution force s same d =
      Runs-if done _ _ s (λ _. Runs-pure tt s)
        (λ _. cancel_all-Runs execution force s (ap (λ e. e.tasks) same) d)

  cancel_from-Runs :
      (status : ExecutionStatus) (requery force : Bool) (s : Store)
      → Distinct (ids_of s)
      → Runs n (cancel_from w advance status s.execution requery force) s
  unfolding cancel_from
  cancel_from-Runs ExecutionStatus.running requery force s d =
      let q = set_tasks_execution_status-Quiet w s.execution ExecutionStatus.cancelling in
      let s1 : Store = (set_tasks_execution_status w s.execution ExecutionStatus.cancelling s).1 in
      let same = (q.hushed s).same_tasks in
      Runs-seq _ _ s (Quiet-Runs _ s q)
        (λ ev. cancel_all-Runs s.execution force s1 (sym same) (rw ev.same_ids d))
  cancel_from-Runs ExecutionStatus.cancelling requery force s d =
      Runs-if (not force) _ _ s
        (λ _.
          Runs-seq _ _ s (advances s.execution (not requery) none s d (fresh (not requery)))
            (λ _. Runs-pure tt _))
        (λ _. cancel_all-Runs s.execution force s refl d)
    where
      fresh : (r : Bool) → Fresh r s.execution s
      fresh true = tt
      fresh false = refl
  cancel_from-Runs status requery force s d =
      cancel_or_skip-Runs (has_finalized_text status) s.execution force s refl d

  pub cancel_tasks_execution_with-Runs :
      (given : Execution) (requery force : Bool) (s : Store)
      → Distinct (ids_of s)
      → Fresh requery given s
      → Runs n (cancel_tasks_execution_with w advance given requery force) s
  unfolding cancel_tasks_execution_with get_tasks_execution
  cancel_tasks_execution_with-Runs given true force s d fresh = record {
    ran = (cancel_from-Runs s.execution.status true force s d).ran;
  }
  cancel_tasks_execution_with-Runs given false force s d fresh =
      rw fresh (record { ran = (cancel_from-Runs s.execution.status false force s d).ran })
