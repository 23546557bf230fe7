-- ===== src/Conductor/MinionLaws.antt =====
-- conductor/rpc/server.py: the execution after the minion manager has reported on its machines.
use cloudshift.Prelude.{◌≡◌, refl, ap, sym, subst, ◌∙◌, Bool, true, false, not, if◌then◌else◌}
use cloudshift.Constants.{ExecutionStatus}
use cloudshift.Conductor.Store.{Store, World}
use cloudshift.Conductor.Effects.{Error, ok, M, raise, ◌>>◌, get_tasks_execution}
use cloudshift.Conductor.Status.{is_awaiting, set_tasks_execution_status}
use cloudshift.Conductor.Engine.{run_cancel}
use cloudshift.Conductor.Requests.{handle_request, minions_allocation_failed}
use cloudshift.Conductor.Minions.{ActionKind, invalid_state}
use cloudshift.Conductor.Agreement.{seq_ok, status_set}

-- A handler that succeeds has passed its guard.
guarded :
    (b : Bool) (e : Error) (m : M Unit) (s : Store) {u : Unit {0}}
    → ((if not b then raise e else m) s).0 ≡ ok u
    → (if not b then raise e else m) s ≡ m s
guarded true e m s h = refl
guarded false e m s h = cc

-- An execution whose machines could not be allocated is left ERROR_ALLOCATING_MINIONS, whatever the
-- cancellation of its tasks has made of it, where the report is handled without an exception.
pub minions_allocation_failed-status :
    (w : World) (kind : ActionKind) (s : Store) {u : Unit {0}}
    → (handle_request w (minions_allocation_failed kind) s).0 ≡ ok u
    → (handle_request w (minions_allocation_failed kind) s).1.execution.status
      ≡ ExecutionStatus.error_allocating_minions
unfolding handle_request get_tasks_execution
minions_allocation_failed-status w kind s {u} h =
    let cancel = run_cancel w s.execution true false in
    let write = set_tasks_execution_status w s.execution ExecutionStatus.error_allocating_minions in
    let passed =
      guarded (is_awaiting s.last_execution_status) (invalid_state kind) (cancel >> write) s h in
    let (_, _, same, done) = seq_ok cancel write s (subst (λ r. r.0 ≡ ok u) passed h) in
    subst (λ r. r.1.execution.status ≡ ExecutionStatus.error_allocating_minions) (sym passed)
      (ap (λ s'. s'.execution.status) same
        ∙ status_set w s.execution ExecutionStatus.error_allocating_minions (cancel s).1 done)
