-- ===== src/Constants.antt =====
-- coriolis/constants.py: the statuses of tasks and of executions, and their groups.
-- A list of statuses that the code tests with `in` is its membership test.
use Prim.Native.String.{String}
use cloudshift.Prelude.{ℕ, Bool, true, false, List, [], ◌∷◌, ◌==◌}

pub data TaskStatus : Type 0 where
  scheduled pending starting unscheduled running completed error force_canceled : TaskStatus
  failed_to_cancel canceled canceled_after_completion cancelling : TaskStatus
  cancelling_after_completion canceled_for_debugging canceled_from_deadlock : TaskStatus
  on_error_only failed_to_schedule : TaskStatus

pub data ExecutionStatus : Type 0 where
  unexecuted running completed error deadlocked canceled cancelling : ExecutionStatus
  canceled_for_debugging awaiting_minion_allocations error_allocating_minions : ExecutionStatus
  pending : ExecutionStatus

pub data ExecutionType : Type 0 where
  transfer_execution transfer_disks_delete deployment transfer_update : ExecutionType
  minion_pool_maintenance minion_pool_update minion_pool_set_up_shared_resources : ExecutionType
  minion_pool_tear_down_shared_resources minion_pool_allocate_minions : ExecutionType
  minion_pool_deallocate_minions : ExecutionType

pub data Scenario : Type 0 where
  replica live_migration : Scenario

-- ACTIVE_TASK_STATUSES
abbrev pub is_active : TaskStatus → Bool
is_active TaskStatus.pending = true
is_active TaskStatus.starting = true
is_active TaskStatus.running = true
is_active TaskStatus.cancelling = true
is_active TaskStatus.cancelling_after_completion = true
is_active _ = false

-- TASK_TYPE_*, without the types of the minion manager's own flows.
pub data TaskType : Type 0 where
  finalize_instance_deployment cleanup_failed_instance_deployment : TaskType
  deploy_os_morphing_resources os_morphing delete_os_morphing_resources : TaskType
  get_instance_info deploy_transfer_disks delete_transfer_source_disk_snapshots : TaskType
  delete_transfer_disks replicate_disks deploy_transfer_source_resources : TaskType
  delete_transfer_source_resources deploy_transfer_target_resources : TaskType
  delete_transfer_target_resources shutdown_instance deploy_instance_resources : TaskType
  create_transfer_disk_snapshots delete_transfer_target_disk_snapshots : TaskType
  restore_transfer_disk_snapshots get_optimal_flavor validate_transfer_source_inputs : TaskType
  validate_transfer_destination_inputs validate_deployment_inputs : TaskType
  update_source_transfer update_destination_transfer attach_volumes_to_source_minion : TaskType
  detach_volumes_from_source_minion attach_volumes_to_destination_minion : TaskType
  detach_volumes_from_destination_minion attach_volumes_to_osmorphing_minion : TaskType
  detach_volumes_from_osmorphing_minion validate_source_minion_pool_compatibility : TaskType
  validate_destination_minion_pool_compatibility : TaskType
  validate_osmorphing_minion_pool_compatibility release_source_minion : TaskType
  release_destination_minion release_osmorphing_minion collect_osmorphing_info : TaskType

-- CANCELED_TASK_STATUSES
abbrev pub is_canceled : TaskStatus → Bool
is_canceled TaskStatus.canceled = true
is_canceled TaskStatus.unscheduled = true
is_canceled TaskStatus.force_canceled = true
is_canceled TaskStatus.canceled_after_completion = true
is_canceled TaskStatus.canceled_for_debugging = true
is_canceled TaskStatus.canceled_from_deadlock = true
is_canceled TaskStatus.failed_to_schedule = true
is_canceled TaskStatus.failed_to_cancel = true
is_canceled _ = false

-- CLEANUP_TASK_TRIGGER_STATUSES
abbrev pub triggers_cleanup : TaskStatus → Bool
triggers_cleanup TaskStatus.completed = true
triggers_cleanup TaskStatus.canceled_after_completion = true
triggers_cleanup _ = false

-- FINALIZED_TASK_STATUSES
abbrev pub is_finalized : TaskStatus → Bool
is_finalized TaskStatus.completed = true
is_finalized TaskStatus.error = true
is_finalized TaskStatus.unscheduled = true
is_finalized TaskStatus.canceled = true
is_finalized TaskStatus.force_canceled = true
is_finalized TaskStatus.canceled_for_debugging = true
is_finalized TaskStatus.canceled_from_deadlock = true
is_finalized TaskStatus.canceled_after_completion = true
is_finalized TaskStatus.failed_to_schedule = true
is_finalized TaskStatus.failed_to_cancel = true
is_finalized _ = false

-- ACTIVE_EXECUTION_STATUSES
abbrev pub is_active_execution : ExecutionStatus → Bool
is_active_execution ExecutionStatus.running = true
is_active_execution ExecutionStatus.cancelling = true
is_active_execution ExecutionStatus.awaiting_minion_allocations = true
is_active_execution _ = false

-- FINALIZED_EXECUTION_STATUSES
abbrev pub is_finalized_execution : ExecutionStatus → Bool
is_finalized_execution ExecutionStatus.completed = true
is_finalized_execution ExecutionStatus.canceled = true
is_finalized_execution ExecutionStatus.error = true
is_finalized_execution ExecutionStatus.canceled_for_debugging = true
is_finalized_execution ExecutionStatus.deadlocked = true
is_finalized_execution ExecutionStatus.error_allocating_minions = true
is_finalized_execution _ = false

-- The constants' texts, where a status of one kind is compared with those of the other.
unfoldable pub task_status_text : TaskStatus → String
task_status_text TaskStatus.scheduled = "SCHEDULED"
task_status_text TaskStatus.pending = "PENDING"
task_status_text TaskStatus.starting = "STARTING"
task_status_text TaskStatus.unscheduled = "UNSCHEDULED"
task_status_text TaskStatus.running = "RUNNING"
task_status_text TaskStatus.completed = "COMPLETED"
task_status_text TaskStatus.error = "ERROR"
task_status_text TaskStatus.force_canceled = "FORCE_CANCELED"
task_status_text TaskStatus.failed_to_cancel = "FAILED_TO_CANCEL"
task_status_text TaskStatus.canceled = "CANCELED"
task_status_text TaskStatus.canceled_after_completion = "CANCELED_AFTER_COMPLETION"
task_status_text TaskStatus.cancelling = "CANCELLING"
task_status_text TaskStatus.cancelling_after_completion = "CANCELLING_AFTER_COMPLETION"
task_status_text TaskStatus.canceled_for_debugging = "CANCELED_FOR_DEBUGGING"
task_status_text TaskStatus.canceled_from_deadlock = "STRANDED_AFTER_DEADLOCK"
task_status_text TaskStatus.on_error_only = "EXECUTE_ON_ERROR_ONLY"
task_status_text TaskStatus.failed_to_schedule = "FAILED_TO_SCHEDULE"

unfoldable pub execution_status_text : ExecutionStatus → String
execution_status_text ExecutionStatus.unexecuted = "UNEXECUTED"
execution_status_text ExecutionStatus.running = "RUNNING"
execution_status_text ExecutionStatus.completed = "COMPLETED"
execution_status_text ExecutionStatus.error = "ERROR"
execution_status_text ExecutionStatus.deadlocked = "DEADLOCKED"
execution_status_text ExecutionStatus.canceled = "CANCELED"
execution_status_text ExecutionStatus.cancelling = "CANCELLING"
execution_status_text ExecutionStatus.canceled_for_debugging = "CANCELED_FOR_DEBUGGING"
execution_status_text ExecutionStatus.awaiting_minion_allocations = "AWAITING_MINION_ALLOCATIONS"
execution_status_text ExecutionStatus.error_allocating_minions = "ERROR_ALLOCATING_MINIONS"
execution_status_text ExecutionStatus.pending = "PENDING"

unfoldable pub finalized_task_statuses : List TaskStatus
finalized_task_statuses =
    TaskStatus.completed ∷ TaskStatus.error ∷ TaskStatus.unscheduled ∷ TaskStatus.canceled
    ∷ TaskStatus.force_canceled ∷ TaskStatus.canceled_for_debugging
    ∷ TaskStatus.canceled_from_deadlock ∷ TaskStatus.canceled_after_completion
    ∷ TaskStatus.failed_to_schedule ∷ TaskStatus.failed_to_cancel ∷ []

-- status == TASK_STATUS_SCHEDULED
abbrev pub is_scheduled : TaskStatus → Bool
is_scheduled TaskStatus.scheduled = true
is_scheduled _ = false

-- status == TASK_STATUS_COMPLETED
abbrev pub is_completed : TaskStatus → Bool
is_completed TaskStatus.completed = true
is_completed _ = false

-- status == TASK_STATUS_UNSCHEDULED
abbrev pub is_unscheduled : TaskStatus → Bool
is_unscheduled TaskStatus.unscheduled = true
is_unscheduled _ = false

-- status == TASK_STATUS_ON_ERROR_ONLY
abbrev pub is_on_error_only : TaskStatus → Bool
is_on_error_only TaskStatus.on_error_only = true
is_on_error_only _ = false

-- status == TASK_STATUS_FAILED_TO_CANCEL
abbrev pub is_failed_to_cancel : TaskStatus → Bool
is_failed_to_cancel TaskStatus.failed_to_cancel = true
is_failed_to_cancel _ = false

-- Equality of execution statuses, by their places in the list above.
abbrev pub execution_status_number : ExecutionStatus → ℕ
execution_status_number ExecutionStatus.unexecuted = 0
execution_status_number ExecutionStatus.running = 1
execution_status_number ExecutionStatus.completed = 2
execution_status_number ExecutionStatus.error = 3
execution_status_number ExecutionStatus.deadlocked = 4
execution_status_number ExecutionStatus.canceled = 5
execution_status_number ExecutionStatus.cancelling = 6
execution_status_number ExecutionStatus.canceled_for_debugging = 7
execution_status_number ExecutionStatus.awaiting_minion_allocations = 8
execution_status_number ExecutionStatus.error_allocating_minions = 9
execution_status_number ExecutionStatus.pending = 10

abbrev pub same_execution_status : ExecutionStatus → ExecutionStatus → Bool
same_execution_status a b = execution_status_number a == execution_status_number b

-- The same for task statuses.
abbrev pub task_status_number : TaskStatus → ℕ
task_status_number TaskStatus.scheduled = 0
task_status_number TaskStatus.pending = 1
task_status_number TaskStatus.starting = 2
task_status_number TaskStatus.unscheduled = 3
task_status_number TaskStatus.running = 4
task_status_number TaskStatus.completed = 5
task_status_number TaskStatus.error = 6
task_status_number TaskStatus.force_canceled = 7
task_status_number TaskStatus.failed_to_cancel = 8
task_status_number TaskStatus.canceled = 9
task_status_number TaskStatus.canceled_after_completion = 10
task_status_number TaskStatus.cancelling = 11
task_status_number TaskStatus.cancelling_after_completion = 12
task_status_number TaskStatus.canceled_for_debugging = 13
task_status_number TaskStatus.canceled_from_deadlock = 14
task_status_number TaskStatus.on_error_only = 15
task_status_number TaskStatus.failed_to_schedule = 16

abbrev pub same_task_status : TaskStatus → TaskStatus → Bool
same_task_status a b = task_status_number a == task_status_number b
