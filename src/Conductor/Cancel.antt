-- ===== src/Conductor/Cancel.antt =====
-- conductor/rpc/server.py, `_cancel_tasks_execution`: the statuses that a cancellation gives to
-- the tasks of an execution. The state advancement at its end is a parameter.
use cloudshift.Prelude.{
  ℕ, Bool, true, not, ◌&&◌, ◌||◌, Option, none, List, [], ◌∷◌, any, is_empty, leb, if◌then◌else◌,
}
use text.Mathlib.Text.{◌==◌ as str_eq}
use cloudshift.Constants.{
  TaskStatus, ExecutionStatus, is_active, is_failed_to_cancel, finalized_task_statuses,
  task_status_text, execution_status_text,
}
use cloudshift.Conductor.Store.{Task, Execution, World, cancel_task}
use cloudshift.Conductor.Effects.{
  M, pure, try_except, ◌>>=◌, ◌>>◌, for_each, invoke, set_task_status,
}
use cloudshift.Conductor.Status.{refresh, set_tasks_execution_status}

-- `sorted(tasks, key=lambda t: t.index)`: stable.
unfoldable pub insert_task : Task → List Task → List Task
insert_task t [] = t ∷ []
insert_task t (u ∷ us) = if leb t.index u.index then t ∷ u ∷ us else u ∷ insert_task t us

unfoldable pub sort_tasks : List Task → List Task
unfolding insert_task
sort_tasks [] = []
sort_tasks (t ∷ ts) = insert_task t (sort_tasks ts)

-- `execution.status in constants.FINALIZED_TASK_STATUSES`: texts are compared.
unfoldable pub has_finalized_text : ExecutionStatus → Bool
unfolding finalized_task_statuses task_status_text execution_status_text
has_finalized_text status =
    any (λ s. str_eq (task_status_text s) (execution_status_text status)) finalized_task_statuses

module _ (w : World) (force : Bool) where
  -- A task that runs: a cleanup task may go on, any other is told to stop.
  unfoldable pub stop_running : Task → M Unit
  stop_running t =
      if t.on_error then set_task_status t.id TaskStatus.cancelling_after_completion else do
        set_task_status t.id TaskStatus.cancelling
        try_except (invoke w (cancel_task t.id force))
            (λ _. set_task_status t.id TaskStatus.failed_to_cancel)

  unfoldable pub cancel_by_status : TaskStatus → Task → M Unit
  unfolding stop_running
  cancel_by_status TaskStatus.scheduled t =
      if is_empty t.depends_on then set_task_status t.id TaskStatus.unscheduled else pure tt
  cancel_by_status TaskStatus.pending t = set_task_status t.id TaskStatus.unscheduled
  cancel_by_status TaskStatus.starting t = set_task_status t.id TaskStatus.unscheduled
  cancel_by_status TaskStatus.running t = stop_running t
  cancel_by_status TaskStatus.failed_to_cancel t = stop_running t
  cancel_by_status TaskStatus.on_error_only t = set_task_status t.id TaskStatus.scheduled
  cancel_by_status _ t = pure tt

  -- The body of the loop over the tasks.
  unfoldable pub cancel_one : Task → M Unit
  unfolding cancel_by_status
  cancel_one t =
      if force && (is_active t.status || is_failed_to_cancel t.status)
      then set_task_status t.id TaskStatus.force_canceled
      else cancel_by_status t.status t

module _ (w : World) (advance : Execution → Bool → Option ℕ → M (List ℕ)) where
  -- The loop, and the state advancement after it.
  unfoldable pub cancel_all : Execution → Bool → M Unit
  unfolding cancel_one sort_tasks for_each
  cancel_all execution force = do
    for_each (cancel_one w force) (sort_tasks execution.tasks)
    advance execution true none
    pure tt

  unfoldable pub cancel_from : ExecutionStatus → Execution → Bool → Bool → M Unit
  unfolding cancel_all has_finalized_text
  cancel_from ExecutionStatus.running execution requery force = do
    set_tasks_execution_status w execution ExecutionStatus.cancelling
    cancel_all execution force
  cancel_from ExecutionStatus.cancelling execution requery force =
      if not force
      then (do advance execution (not requery) none; pure tt)
      else cancel_all execution force
  cancel_from status execution requery force =
      if has_finalized_text status then pure tt else cancel_all execution force

  unfoldable pub cancel_tasks_execution_with : Execution → Bool → Bool → M Unit
  unfolding cancel_from
  cancel_tasks_execution_with given requery force = do
    execution ← refresh requery given
    cancel_from execution.status execution requery force
