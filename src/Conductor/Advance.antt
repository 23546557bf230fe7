-- ===== src/Conductor/Advance.antt =====
-- conductor/rpc/server.py, `_advance_execution_state`: which scheduled tasks start, which are
-- unscheduled, and the status of the execution after that. The cancellation that follows a
-- failed start is a parameter.
use cloudshift.Prelude.{
  ℕ, Bool, true, false, not, ◌&&◌, Option, none, some, List, [], ◌∷◌, ◌++◌, map, filter, any, all,
  is_empty, contains, Dict, lookup, insert, ◌==◌, if◌then◌else◌,
}
use cloudshift.Constants.{
  TaskStatus, ExecutionStatus, is_finalized, is_completed, is_unscheduled, is_scheduled,
  triggers_cleanup, is_active_execution, same_execution_status,
}
use cloudshift.Conductor.Store.{Task, Execution, World, get_worker_service, begin_task}
use cloudshift.Conductor.Effects.{
  M, key_error, invalid_action_tasks_execution_state, pure, raise, try_except, ◌>>=◌, ◌>>◌,
  for_fold, invoke, set_task_status,
}
use cloudshift.Conductor.Status.{
  refresh, status_map, get_execution_status, set_tasks_execution_status,
  check_clean_execution_deadlock,
}
use cloudshift.Conductor.Cancel.{sort_tasks}

pub data Decision : Type 0 where
  start unschedule wait : Decision

abbrev pub values : Dict TaskStatus → List TaskStatus
values m = map (λ e. e.1) m

-- What becomes of a scheduled task, from the statuses of its parents.
unfoldable pub decide : (on_error_tasks : List ℕ) (id : ℕ) (parents : Dict TaskStatus) → Decision
decide on_error_tasks id parents =
    let stats = values parents in
    let non_error_parents = filter (λ e. not (contains e.0 on_error_tasks)) parents in
    if all is_unscheduled stats
    then unschedule
    else if not (all is_finalized stats)
    then wait
    else if not (contains id on_error_tasks)
    then (if all is_completed stats then start else unschedule)
    else if is_empty non_error_parents && any is_completed stats
    then start
    else if any triggers_cleanup (values non_error_parents)
    then start
    else unschedule

-- `{dep_id: task_statuses[dep_id] for dep_id in deps}`; a missing key is an exception.
unfoldable pub parent_statuses : Dict TaskStatus → List ℕ → Option (Dict TaskStatus)
parent_statuses statuses [] = some []
parent_statuses statuses (d ∷ ds) = elim (lookup d statuses) [
  | none ↦ none
  | some status ↦ elim (parent_statuses statuses ds) [
    | none ↦ none
    | some rest ↦ some ((d, status) ∷ rest)
  ]
]

unfoldable pub on_error_ids : List Task → List ℕ
on_error_ids tasks = map (λ t. t.id) (filter (λ t. t.on_error) tasks)

-- `task_statuses` and `started_tasks`.
abbrev pub Progress : Type 0
Progress = Dict TaskStatus × List ℕ

abbrev pub of_instance : Option ℕ → List Task → List Task
of_instance none tasks = tasks
of_instance (some name) tasks = filter (λ t. t.instance_name == name) tasks

abbrev pub is_deadlocked_execution : ExecutionStatus → Bool
is_deadlocked_execution ExecutionStatus.deadlocked = true
is_deadlocked_execution _ = false

module _ (w : World) where
  unfoldable pub get_worker_service_for_task : ℕ → M Unit
  get_worker_service_for_task id =
      try_except (invoke w (get_worker_service id))
        (λ e. do set_task_status id TaskStatus.failed_to_schedule; raise e)

  unfoldable pub begin_on_worker : ℕ → M Unit
  unfolding get_worker_service_for_task
  begin_on_worker id = do get_worker_service_for_task id; invoke w (begin_task id)

module _ (w : World) (execution : Execution) where
  -- What follows the loop.
  unfoldable pub settle : List ℕ → M (List ℕ)
  unfolding get_execution_status set_tasks_execution_status
  settle started = do
    latest ← get_execution_status execution true
    if same_execution_status latest execution.status
        then pure tt
        else set_tasks_execution_status w execution latest
    pure started

  unfoldable pub finish_advance : Progress → M (List ℕ)
  unfolding check_clean_execution_deadlock settle
  finish_advance (statuses, s ∷ started) = settle (s ∷ started)
  finish_advance (statuses, []) = do
    state ← check_clean_execution_deadlock w execution statuses true
    if is_deadlocked_execution state then pure [] else settle []

module _ (w : World) (cancel : Execution → M Unit) (execution : Execution) where
  -- `_start_task`: a task that cannot be started cancels the execution.
  unfoldable pub start_task : ℕ → M Unit
  unfolding begin_on_worker
  start_task id = do
    set_task_status id TaskStatus.pending
    try_except (begin_on_worker w id) (λ e. do cancel execution; raise e)

  unfoldable pub apply_decision : Progress → ℕ → Decision → M Progress
  unfolding start_task
  apply_decision (statuses, started) id start = do
    start_task id
    pure (insert id TaskStatus.pending statuses, started ++ id ∷ [])
  apply_decision (statuses, started) id unschedule = do
    set_task_status id TaskStatus.unscheduled
    pure (insert id TaskStatus.unscheduled statuses, started)
  apply_decision progress id wait = pure progress

  unfoldable pub advance_parents : Progress → ℕ → Option (Dict TaskStatus) → M Progress
  unfolding apply_decision decide on_error_ids
  advance_parents progress id none = raise key_error
  advance_parents progress id (some parents) =
      apply_decision progress id (decide (on_error_ids execution.tasks) id parents)

  unfoldable pub advance_scheduled : Progress → ℕ → List ℕ → M Progress
  unfolding advance_parents parent_statuses
  advance_scheduled progress id [] = apply_decision progress id start
  advance_scheduled progress id (d ∷ ds) =
      advance_parents progress id (parent_statuses progress.0 (d ∷ ds))

  unfoldable pub advance_found : Progress → Task → Option TaskStatus → M Progress
  unfolding advance_scheduled
  advance_found progress t none = raise key_error
  advance_found progress t (some status) =
      if is_scheduled status then advance_scheduled progress t.id t.depends_on else pure progress

  -- The body of the loop over the tasks.
  unfoldable pub advance_one : Progress → Task → M Progress
  unfolding advance_found lookup
  advance_one progress t = advance_found progress t (lookup t.id progress.0)

  unfoldable pub advance_tasks : List Task → M (List ℕ)
  unfolding advance_one finish_advance sort_tasks for_fold
  advance_tasks [] = raise invalid_action_tasks_execution_state
  advance_tasks (t ∷ ts) = do
    progress ← for_fold advance_one (status_map execution.tasks, []) (sort_tasks (t ∷ ts))
    finish_advance w execution progress

module _ (w : World) (cancel : Execution → M Unit) where
  unfoldable pub advance_current : Bool → Option ℕ → Execution → M (List ℕ)
  unfolding advance_tasks check_clean_execution_deadlock
  advance_current requery name execution =
      if is_active_execution execution.status
      then advance_tasks w cancel execution (of_instance name execution.tasks)
      else (do check_clean_execution_deadlock w execution [] (not requery); pure [])

  unfoldable pub advance_execution_state_with : Execution → Bool → Option ℕ → M (List ℕ)
  unfolding advance_current
  advance_execution_state_with given requery name = do
    execution ← refresh requery given
    advance_current requery name execution
