-- ===== src/Conductor/CancelLaws.antt =====
-- conductor/rpc/server.py, `_cancel_tasks_execution`: which executions it skips.
use cloudshift.Prelude.{◌≡◌, refl, Bool, true, false}
use cloudshift.Constants.{ExecutionStatus}
use cloudshift.Conductor.Cancel.{has_finalized_text}

-- The final statuses that an execution shares with tasks, by their texts.
abbrev pub is_shared_final : ExecutionStatus → Bool
is_shared_final ExecutionStatus.completed = true
is_shared_final ExecutionStatus.error = true
is_shared_final ExecutionStatus.canceled = true
is_shared_final ExecutionStatus.canceled_for_debugging = true
is_shared_final _ = false

-- The test that lets a cancellation skip a finalized execution holds of COMPLETED, ERROR, CANCELED
-- and CANCELED_FOR_DEBUGGING executions, and of no other: DEADLOCKED and ERROR_ALLOCATING_MINIONS
-- executions, which are finalized too, are not skipped.
pub has_finalized_text_lem :
    (status : ExecutionStatus) → has_finalized_text status ≡ is_shared_final status
unfolding has_finalized_text
has_finalized_text_lem ExecutionStatus.unexecuted = refl
has_finalized_text_lem ExecutionStatus.running = refl
has_finalized_text_lem ExecutionStatus.completed = refl
has_finalized_text_lem ExecutionStatus.error = refl
has_finalized_text_lem ExecutionStatus.deadlocked = refl
has_finalized_text_lem ExecutionStatus.canceled = refl
has_finalized_text_lem ExecutionStatus.cancelling = refl
has_finalized_text_lem ExecutionStatus.canceled_for_debugging = refl
has_finalized_text_lem ExecutionStatus.awaiting_minion_allocations = refl
has_finalized_text_lem ExecutionStatus.error_allocating_minions = refl
has_finalized_text_lem ExecutionStatus.pending = refl
