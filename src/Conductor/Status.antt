-- ===== src/Conductor/Status.antt =====
-- conductor/rpc/server.py: the status of an execution, from the statuses of its tasks, and its
-- changes with what they set off.
use cloudshift.Prelude.{
  ℕ, Bool, true, false, not, ◌&&◌, ◌||◌, Option, none, some, List, map, any, is_empty, Dict, length,
  if◌then◌else◌,
}
use cloudshift.Constants.{
  TaskStatus, ExecutionStatus, ExecutionType, Scenario, is_active, is_canceled, is_scheduled,
  is_on_error_only, is_finalized_execution,
}
use cloudshift.Conductor.Store.{
  Task, Execution, World, deallocate_minions, delete_trust, get_reservation,
  mark_reservation_fulfilled,
}
use cloudshift.Conductor.Effects.{
  M, conflict, pure, raise, get, ◌>>=◌, ◌>>◌, for_each, invoke, set_task_status,
  set_execution_status, get_tasks_execution,
}

-- The flags that `_get_execution_status` gathers in its loop.
abbrev pub is_errored : TaskStatus → Bool
is_errored TaskStatus.error = true
is_errored TaskStatus.failed_to_schedule = true
is_errored _ = false

abbrev pub is_cancelling : TaskStatus → Bool
is_cancelling TaskStatus.cancelling = true
is_cancelling TaskStatus.cancelling_after_completion = true
is_cancelling _ = false

abbrev pub statuses_of : List Task → List TaskStatus
statuses_of tasks = map (λ t. t.status) tasks

unfoldable pub overall_status : List TaskStatus → ExecutionStatus
overall_status stats =
    let is_running = any is_active stats in
    let has_canceled = any is_canceled stats in
    if any is_scheduled stats && not is_running
    then ExecutionStatus.deadlocked
    else if any is_cancelling stats
    then ExecutionStatus.cancelling
    else if is_running
    then (if has_canceled then ExecutionStatus.cancelling else ExecutionStatus.running)
    else if any is_errored stats
    then ExecutionStatus.error
    else if has_canceled
    then ExecutionStatus.canceled
    else ExecutionStatus.completed

-- `requery` reads the rows again; without it the caller's copy is used.
abbrev pub refresh : Bool → Execution → M Execution
refresh true given = get_tasks_execution
refresh false given = pure given

unfoldable pub get_execution_status : Execution → Bool → M ExecutionStatus
unfolding overall_status
get_execution_status given requery = do
  execution ← refresh requery given
  pure (overall_status (statuses_of execution.tasks))

abbrev pub is_awaiting : ExecutionStatus → Bool
is_awaiting ExecutionStatus.awaiting_minion_allocations = true
is_awaiting _ = false

abbrev pub is_completed_execution : ExecutionStatus → Bool
is_completed_execution ExecutionStatus.completed = true
is_completed_execution _ = false

-- Which executions fulfil the reservation of a transfer.
abbrev pub fulfills : Scenario → ExecutionType → Bool
fulfills Scenario.replica ExecutionType.transfer_execution = true
fulfills Scenario.live_migration ExecutionType.deployment = true
fulfills _ _ = false

abbrev pub status_map : List Task → Dict TaskStatus
status_map tasks = map (λ t. (t.id, t.status)) tasks

abbrev pub is_deadlocked : List TaskStatus → Bool
is_deadlocked stats = any is_scheduled stats && not (any is_active stats)

module _ (w : World) where
  -- Nothing, or whether the reservation is marked as fulfilled, as the licensing server answers.
  unfoldable pub get_licensing_reservation : Option ℕ → M (Option Bool)
  get_licensing_reservation none = pure none
  get_licensing_reservation (some id) =
      if w.licensing
      then (do s ← get; invoke w get_reservation; pure (w.reservation (length s.log)))
      else pure none

  unfoldable pub mark_reservation : Bool → Option ℕ → Option Bool → M Unit
  mark_reservation must_unfulfilled id none = pure tt
  mark_reservation must_unfulfilled id (some true) =
      if must_unfulfilled then raise conflict else pure tt
  mark_reservation must_unfulfilled none (some false) = pure tt
  mark_reservation must_unfulfilled (some id) (some false) =
      invoke w (mark_reservation_fulfilled id)

  unfoldable pub check_mark_reservation_fulfilled : Execution → Bool → M Unit
  unfolding get_licensing_reservation mark_reservation
  check_mark_reservation_fulfilled execution must_unfulfilled = do
    reservation ← get_licensing_reservation execution.reservation_id
    mark_reservation must_unfulfilled execution.reservation_id reservation

  unfoldable pub update_reservation_fulfillment : Execution → M Unit
  unfolding check_mark_reservation_fulfilled
  update_reservation_fulfillment execution =
      if fulfills execution.scenario execution.type
      then check_mark_reservation_fulfilled execution false
      else pure tt

  -- What ends with the execution: its minion machines, unless their allocation is still under way,
  -- and the request's trust.
  unfoldable pub release_resources : Execution → M Unit
  release_resources execution = do
    if is_awaiting execution.status then pure tt else invoke w deallocate_minions
    s ← get
    if s.delete_trust_id then invoke w delete_trust else pure tt

  unfoldable pub set_tasks_execution_status : Execution → ExecutionStatus → M Unit
  unfolding update_reservation_fulfillment release_resources
  set_tasks_execution_status execution status = do
    if is_completed_execution status then update_reservation_fulfillment execution else pure tt
    if is_finalized_execution status then release_resources execution else pure tt
    set_execution_status status

  -- The loop over the statuses of a deadlocked execution.
  unfoldable pub cancel_deadlocked : ℕ × TaskStatus → M Unit
  cancel_deadlocked (id, status) =
      if is_scheduled status || is_on_error_only status
      then set_task_status id TaskStatus.canceled_from_deadlock
      else pure tt

  unfoldable pub clean_deadlock : Execution → Dict TaskStatus → M ExecutionStatus
  unfolding cancel_deadlocked for_each
  clean_deadlock execution stats =
      if is_deadlocked (map (λ e. e.1) stats)
      then (do
        for_each cancel_deadlocked stats
        set_tasks_execution_status execution ExecutionStatus.deadlocked
        pure ExecutionStatus.deadlocked)
      else pure ExecutionStatus.running

  -- An empty `statuses` is a missing one.
  unfoldable pub check_clean_execution_deadlock :
      Execution → Dict TaskStatus → Bool → M ExecutionStatus
  unfolding clean_deadlock
  check_clean_execution_deadlock given statuses requery = do
    execution ← refresh requery given
    clean_deadlock execution (if is_empty statuses then status_map execution.tasks else statuses)
