-- ===== src/Conductor/Cases.antt =====
-- The theorems about single parts of the conductor, at small inputs.
use cloudshift.Prelude.{
  All, true, insert, ◌≡◌, refl, false, not, ◌&&◌, ◌||◌, none, some, List, [], ◌∷◌, any, all,
  is_empty, Dict,
}
use cloudshift.Constants.{
  TaskStatus, TaskType, ExecutionStatus, is_active, is_finalized, is_completed, triggers_cleanup,
  is_finalized_execution,
}
use cloudshift.Conductor.Store.{Task, Store, find_task, put_task, tasks_of}
use cloudshift.Conductor.Effects.{
  for_each, set_task_status, err, ok, invalid_task_state, get_tasks_execution, invoke,
  set_execution_status,
}
use cloudshift.Conductor.Status.{is_completed_execution, overall_status, statuses_of}
use cloudshift.Conductor.Cancel.{cancel_one, sort_tasks}
use cloudshift.Conductor.Forcing.{outcome, cancel_one-Left}
use cloudshift.Conductor.Leaving.{Left}
use cloudshift.Conductor.Status.{clean_deadlock, status_map}
use cloudshift.Conductor.Deadlocks.{stranded, clean_deadlock-Left}
use cloudshift.Conductor.Advance.{decide, values}
use cloudshift.Conductor.Engine.{run_advance}
use cloudshift.Conductor.Reports.{set_task_host}
use cloudshift.Conductor.Requests.{
  host_set, process_set, minions_allocation_failed, handle_request, serve,
}
use cloudshift.Conductor.Minions.{transfer_action}
use cloudshift.Conductor.MinionLaws.{minions_allocation_failed-status}
use cloudshift.Conductor.Examples.{task, store, tasks, world, half_done}
use cloudshift.Conductor.Verdict.{is_done, overall_status-finalized, overall_status-completed}
use cloudshift.Conductor.Decisions.{is_start, workers, decide-start, decide-start-on_error}
use cloudshift.Conductor.Acceptance.{host_set-process_set}
use cloudshift.Conductor.Agreement.{run_advance-finalized}

abbrev mixed : List TaskStatus
mixed = TaskStatus.completed ∷ TaskStatus.running ∷ TaskStatus.scheduled ∷ []

overall_status-finalized_example :
    is_finalized_execution (overall_status mixed) ≡ not (any is_active mixed)
overall_status-finalized_example = overall_status-finalized mixed

overall_status-completed_example : is_completed_execution (overall_status mixed) ≡ all is_done mixed
overall_status-completed_example = overall_status-completed mixed

abbrev ended : List TaskStatus
ended = TaskStatus.canceled ∷ TaskStatus.error ∷ TaskStatus.on_error_only ∷ []

abbrev parents : Dict TaskStatus
parents = (1, TaskStatus.completed) ∷ (2, TaskStatus.error) ∷ []

decide-start_example : is_start (decide (4 ∷ []) 3 parents) ≡ all is_completed (values parents)
decide-start_example =
    decide-start (4 ∷ []) 3 1 TaskStatus.completed ((2, TaskStatus.error) ∷ []) refl

decide-start-on_error_example : is_start (decide (4 ∷ []) 4 parents) ≡ (
    all is_finalized (values parents)
    && (any triggers_cleanup (values (workers (4 ∷ []) parents))
        || is_empty (workers (4 ∷ []) parents) && any is_completed (values parents)))
decide-start-on_error_example = decide-start-on_error (4 ∷ []) 4 parents refl

-- An execution with one task that a worker was asked to begin.
abbrev pending_task : Task
pending_task = task 1 TaskStatus.pending TaskType.deploy_transfer_disks [] false

abbrev begun_store : Store
begun_store = store ExecutionStatus.running (pending_task ∷ [])

host_set-process_set_example :
    find_task 1 (tasks_of (serve world (host_set 1 7 ∷ process_set 1 9 ∷ []) begun_store))
    ≡ some (record pending_task { host = some 7; process_id = some 9; status = TaskStatus.running })
host_set-process_set_example =
    host_set-process_set world 1 6 8 begun_store {t = pending_task} (unfold find_task in refl) refl

refusal : (set_task_host 1 7 half_done).0 ≡ err invalid_task_state
unfolding set_task_host find_task
refusal = refl

-- The first task has been completed, so the second one is started.
abbrev moving : Store
moving = store ExecutionStatus.running (
    task 1 TaskStatus.completed TaskType.deploy_transfer_disks [] false
    ∷ task 2 TaskStatus.scheduled TaskType.replicate_disks (1 ∷ []) false
    ∷ [])

advanced : (run_advance world moving.execution false none moving).0 ≡ ok (2 ∷ [])
unfolding run_advance set_task_status find_task invoke get_tasks_execution put_task
advanced = refl

run_advance-finalized_example :
    is_finalized_execution (run_advance world moving.execution false none moving).1.execution.status
    ≡ not (
        any is_active
          (statuses_of (tasks_of (run_advance world moving.execution false none moving).1)))
run_advance-finalized_example =
    run_advance-finalized world false none moving ((refl, tt), (tt, tt)) refl advanced

-- An execution that waits for machines.
abbrev waiting : Store
waiting = store ExecutionStatus.awaiting_minion_allocations tasks

handled : (handle_request world (minions_allocation_failed transfer_action) waiting).0 ≡ ok tt
unfolding handle_request get_tasks_execution find_task put_task insert set_execution_status
handled = refl

minions_allocation_failed-status_example :
    (handle_request world (minions_allocation_failed transfer_action) waiting).1.execution.status
    ≡ ExecutionStatus.error_allocating_minions
minions_allocation_failed-status_example =
    minions_allocation_failed-status world transfer_action waiting handled

cancel_one-Left_example :
    Left outcome
      (for_each (cancel_one world true) (sort_tasks (tasks_of half_done)) half_done).1
      (sort_tasks (tasks_of half_done))
    × All (λ t. is_active (outcome t) ≡ false) (tasks_of half_done)
cancel_one-Left_example = cancel_one-Left world half_done ((refl, tt), (tt, tt))

-- Two tasks that wait for each other, and a cleanup task.
abbrev stuck : Store
stuck = store ExecutionStatus.running (
    task 1 TaskStatus.scheduled TaskType.deploy_transfer_disks (2 ∷ []) false
    ∷ task 2 TaskStatus.scheduled TaskType.replicate_disks (1 ∷ []) false
    ∷ task 3 TaskStatus.on_error_only TaskType.delete_transfer_target_resources (1 ∷ []) true
    ∷ [])

clean_deadlock-Left_example :
    Left stranded
      (clean_deadlock world stuck.execution (status_map (tasks_of stuck)) stuck).1
      (tasks_of stuck)
clean_deadlock-Left_example =
    clean_deadlock-Left world stuck.execution stuck ((refl, (refl, tt)), ((refl, tt), (tt, tt)))
      refl
