-- ===== src/Conductor/Reports.antt =====
-- conductor/rpc/server.py: what workers report of their tasks. Each handler holds the locks of the
-- execution and of the task, so it runs alone on the rows.
use cloudshift.Prelude.{
  ℕ, zero, suc, Bool, true, false, not, ◌&&◌, ◌||◌, Option, none, some, [], ◌∷◌, filter, is_empty,
  Dict, lookup, if◌then◌else◌,
}
use cloudshift.Constants.{
  TaskStatus, TaskType, ExecutionStatus, is_active, is_finalized, is_scheduled, is_on_error_only,
  same_task_status,
}
use cloudshift.Conductor.Store.{Task, Execution, World}
use cloudshift.Conductor.Effects.{
  M, task_is_cancelling, invalid_task_state, coriolis_error, key_error, pure, raise, get, ◌>>=◌,
  ◌>>◌, for_each, get_task, get_tasks_execution, set_task_status, set_task_host_properties,
}
use cloudshift.Conductor.Status.{set_tasks_execution_status}
use cloudshift.Conductor.Engine.{run_advance, run_cancel}
use cloudshift.Conductor.Results.{update_action_info, handle_post_task_actions}

-- The status of a task whose worker takes it, or the refusal.
unfoldable pub host_status : TaskStatus → M TaskStatus
host_status TaskStatus.cancelling = raise task_is_cancelling
host_status TaskStatus.cancelling_after_completion = pure TaskStatus.cancelling_after_completion
host_status TaskStatus.pending = pure TaskStatus.starting
host_status _ = raise invalid_task_state

unfoldable pub set_task_host : ℕ → ℕ → M Unit
unfolding host_status get_task set_task_host_properties set_task_status
set_task_host id host = do
  task ← get_task id
  status ← host_status task.status
  set_task_host_properties id (some host) none
  set_task_status id status

abbrev pub accepts_process : TaskStatus → Bool
accepts_process TaskStatus.starting = true
accepts_process TaskStatus.cancelling_after_completion = true
accepts_process _ = false

abbrev pub has_host : Option ℕ → Bool
has_host none = false
has_host (some zero) = false
has_host (some (suc _)) = true

unfoldable pub set_task_process : ℕ → ℕ → M Unit
unfolding get_task set_task_host_properties set_task_status
set_task_process id process = do
  task ← get_task id
  if not (has_host task.host)
      then raise invalid_task_state
      else if not (accepts_process task.status)
      then raise invalid_task_state
      else (do
        set_task_host_properties id none (some process)
        set_task_status id TaskStatus.running)

-- The status of a task that has completed; nothing where its result is dropped.
unfoldable pub completion_status : TaskStatus → Option TaskStatus
completion_status TaskStatus.cancelling_after_completion = some TaskStatus.canceled_after_completion
completion_status TaskStatus.cancelling = some TaskStatus.canceled_after_completion
completion_status TaskStatus.failed_to_cancel = some TaskStatus.canceled_after_completion
completion_status status = if is_finalized status then none else some TaskStatus.completed

-- The status of a task whose cancellation is confirmed.
unfoldable pub confirmation_status : TaskStatus → TaskStatus
confirmation_status TaskStatus.cancelling_after_completion = TaskStatus.canceled
confirmation_status TaskStatus.force_canceled = TaskStatus.force_canceled
confirmation_status TaskStatus.failed_to_cancel = TaskStatus.canceled
confirmation_status status = if is_finalized status then status else TaskStatus.canceled

-- The status of a task that reports an error. For a finalized task only the text is replaced by
-- one that speaks of its status; the status itself becomes that of an error.
unfoldable pub error_status : TaskStatus → TaskStatus
error_status TaskStatus.cancelling = TaskStatus.canceled
error_status TaskStatus.cancelling_after_completion = TaskStatus.canceled
error_status TaskStatus.force_canceled = TaskStatus.force_canceled
error_status TaskStatus.failed_to_cancel = TaskStatus.canceled
error_status _ = TaskStatus.error

abbrev pub is_os_morphing : TaskType → Bool
is_os_morphing TaskType.os_morphing = true
is_os_morphing _ = false

-- The body of the loop of `_cancel_execution_for_osmorphing_debugging`.
unfoldable pub debug_one : Task → M Unit
debug_one t =
    if is_os_morphing t.task_type
    then pure tt
    else if is_active t.status
    then raise coriolis_error
    else if is_scheduled t.status || is_on_error_only t.status
    then set_task_status t.id TaskStatus.canceled_for_debugging
    else pure tt

unfoldable pub cancel_execution_for_debugging : Execution → M Unit
unfolding debug_one for_each
cancel_execution_for_debugging execution = for_each debug_one execution.tasks

-- `action.info[instance]`
abbrev pub info_of : Option (Dict ℕ) → M (Dict ℕ)
info_of none = raise key_error
info_of (some info) = pure info

module _ (w : World) where
  unfoldable pub task_info_after : Task → Dict ℕ → M (Dict ℕ)
  unfolding update_action_info
  task_info_after task [] = do s ← get; info_of (lookup task.instance_name s.info)
  task_info_after task (entry ∷ result) = update_action_info task.instance_name (entry ∷ result)

  unfoldable pub process_result : Task → Dict ℕ → M Unit
  unfolding task_info_after handle_post_task_actions run_advance
  process_result task result = do
    info ← task_info_after task result
    execution ← get_tasks_execution
    handle_post_task_actions w task execution info
    run_advance w execution false (some task.instance_name)
    pure tt

  unfoldable pub complete_with : ℕ → Option TaskStatus → Task → Dict ℕ → M Unit
  unfolding process_result
  complete_with id none task result = pure tt
  complete_with id (some status) task result = do
    set_task_status id status
    process_result task result

  unfoldable pub task_completed : ℕ → Dict ℕ → M Unit
  unfolding complete_with completion_status get_task
  task_completed id result = do
    task ← get_task id
    complete_with id (completion_status task.status) task result

  unfoldable pub confirm_with : ℕ → Task → TaskStatus → M Unit
  unfolding run_advance
  confirm_with id task status = do
    set_task_status id status
    if same_task_status status task.status
        then pure tt
        else (do execution ← get_tasks_execution; run_advance w execution false none; pure tt)

  unfoldable pub confirm_task_cancellation : ℕ → M Unit
  unfolding confirm_with confirmation_status get_task
  confirm_task_cancellation id = do
    task ← get_task id
    confirm_with id task (confirmation_status task.status)

  -- What an error does to the rest of the execution.
  unfoldable pub after_error : ℕ → TaskStatus → Bool → Execution → M Unit
  unfolding run_cancel cancel_execution_for_debugging set_tasks_execution_status
  after_error id status false execution = run_cancel w execution true false
  after_error id status true execution =
      if is_empty
        (filter (λ t. is_active t.status && not (is_os_morphing t.task_type)) execution.tasks)
      then (do
        cancel_execution_for_debugging execution
        set_task_status id status
        set_tasks_execution_status w execution ExecutionStatus.canceled_for_debugging)
      else run_cancel w execution true false

  unfoldable pub error_with : ℕ → TaskStatus → M Unit
  unfolding after_error get_task
  error_with id status = do
    set_task_status id status
    task ← get_task id
    execution ← get_tasks_execution
    after_error id status (is_os_morphing task.task_type && w.debug_os_morphing_errors) execution

  unfoldable pub set_task_error : ℕ → M Unit
  unfolding error_with error_status get_task
  set_task_error id = do task ← get_task id; error_with id (error_status task.status)
