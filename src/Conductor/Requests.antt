-- ===== src/Conductor/Requests.antt =====
-- conductor/rpc/server.py: the requests that change the tasks of an execution, in any order. The
-- lock of the execution lets them run one after the other; what a request raises goes to its
-- caller, and the rows stay as it left them.
use cloudshift.Prelude.{ℕ, Bool, true, false, not, ◌&&◌, List, [], ◌∷◌, Dict, if◌then◌else◌}
use cloudshift.Constants.{ExecutionStatus, is_active_execution}
use cloudshift.Conductor.Store.{Store, World}
use cloudshift.Conductor.Effects.{M, invalid_transfer_state, raise, ◌>>=◌, get_tasks_execution}
use cloudshift.Conductor.Engine.{run_cancel}
use cloudshift.Conductor.Launch.{begin_tasks}
use cloudshift.Conductor.Minions.{
  Allocation, ActionKind, confirm_minions_allocation, report_minions_allocation_error,
}
use cloudshift.Conductor.Reports.{
  set_task_host, set_task_process, task_completed, confirm_task_cancellation, set_task_error,
}

abbrev pub is_cancelling_execution : ExecutionStatus → Bool
is_cancelling_execution ExecutionStatus.cancelling = true
is_cancelling_execution _ = false

module _ (w : World) where
  -- The refusals, and the cancellation of the execution as it was read.
  unfoldable pub cancel_transfer_tasks_execution : Bool → M Unit
  unfolding run_cancel
  cancel_transfer_tasks_execution force = do
    execution ← get_tasks_execution
    if not (is_active_execution execution.status)
        then raise invalid_transfer_state
        else if is_cancelling_execution execution.status && not force
        then raise invalid_transfer_state
        else run_cancel w execution true force

pub data Request : Type 0 where
  begin cancel : Bool → Request
  host_set process_set : ℕ → ℕ → Request
  completed : ℕ → Dict ℕ → Request
  cancellation_confirmed failed : ℕ → Request
  minions_allocated : ActionKind → Dict Allocation → Request
  minions_allocation_failed : ActionKind → Request

module _ (w : World) where
  unfoldable pub handle_request : Request → M Unit
  unfolding begin_tasks cancel_transfer_tasks_execution set_task_host set_task_process
      task_completed confirm_task_cancellation set_task_error confirm_minions_allocation
      report_minions_allocation_error
  handle_request (begin delete_trust_id) = do
    execution ← get_tasks_execution
    begin_tasks w execution delete_trust_id
  handle_request (cancel force) = cancel_transfer_tasks_execution w force
  handle_request (host_set id host) = set_task_host id host
  handle_request (process_set id process) = set_task_process id process
  handle_request (completed id result) = task_completed w id result
  handle_request (cancellation_confirmed id) = confirm_task_cancellation w id
  handle_request (failed id) = set_task_error w id
  handle_request (minions_allocated kind allocations) =
      confirm_minions_allocation w kind allocations
  handle_request (minions_allocation_failed kind) = report_minions_allocation_error w kind

  -- The rows after a series of requests.
  unfoldable pub serve : List Request → Store → Store
  unfolding handle_request
  serve [] s = s
  serve (r ∷ rs) s = serve rs (handle_request r s).1
