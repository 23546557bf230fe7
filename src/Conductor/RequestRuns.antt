-- ===== src/Conductor/RequestRuns.antt =====
-- Every request moves the tasks along the diagram, and so does every series of requests.
use cloudshift.Prelude.{ℕ, suc, Bool, not, ◌&&◌, List, [], ◌∷◌}
use cloudshift.Constants.{is_active_execution}
use cloudshift.Conductor.Store.{Store, World}
use cloudshift.Conductor.Effects.{invalid_transfer_state}
use cloudshift.Conductor.Requests.{
  is_cancelling_execution, cancel_transfer_tasks_execution, Request, begin, cancel, host_set,
  process_set, completed, cancellation_confirmed, failed, minions_allocated,
  minions_allocation_failed, handle_request, serve,
}
use cloudshift.Conductor.Evolves.{Distinct, ids_of, Evolves, Evolves-refl, Evolves-trans}
use cloudshift.Conductor.Runs.{Runs, Runs-raise, Runs-if}
use cloudshift.Conductor.ReportRuns.{run_cancel-Runs}
use cloudshift.Conductor.HandlerRuns.{
  Runs-get_tasks_execution, set_task_host-Runs, set_task_process-Runs, task_completed-Runs,
  confirm_task_cancellation-Runs,
}
use cloudshift.Conductor.ErrorRuns.{set_task_error-Runs}
use cloudshift.Conductor.LaunchRuns.{begin_tasks-Runs}
use cloudshift.Conductor.MinionRuns.{
  confirm_minions_allocation-Runs, report_minions_allocation_error-Runs,
}

module _ (n : ℕ) (w : World) where
  cancel_transfer_tasks_execution-Runs :
      (force : Bool) (s : Store)
      → Distinct (ids_of s)
      → Runs n (cancel_transfer_tasks_execution w force) s
  unfolding cancel_transfer_tasks_execution
  cancel_transfer_tasks_execution-Runs force s d = Runs-get_tasks_execution n _ s (
      Runs-if (not (is_active_execution s.execution.status)) _ _ s
        (λ _. Runs-raise invalid_transfer_state s (λ e. cc))
        (λ _.
          Runs-if (is_cancelling_execution s.execution.status && not force) _ _ s
            (λ _. Runs-raise invalid_transfer_state s (λ e. cc))
            (λ _. run_cancel-Runs n w s.execution force s d)))

module _ (n : ℕ) (w : World) where
  pub handle_request-Runs :
      (r : Request) (s : Store) → Distinct (ids_of s) → Runs (suc n) (handle_request w r) s
  unfolding handle_request
  handle_request-Runs (begin b) s d =
      Runs-get_tasks_execution (suc n) _ s (begin_tasks-Runs n w b s d)
  handle_request-Runs (cancel force) s d = cancel_transfer_tasks_execution-Runs (suc n) w force s d
  handle_request-Runs (host_set id host) s d = set_task_host-Runs (suc n) id host s
  handle_request-Runs (process_set id process) s d = set_task_process-Runs (suc n) id process s
  handle_request-Runs (completed id result) s d = task_completed-Runs (suc n) w id result s d
  handle_request-Runs (cancellation_confirmed id) s d =
      confirm_task_cancellation-Runs (suc n) w id s d
  handle_request-Runs (failed id) s d = set_task_error-Runs (suc n) w id s d
  handle_request-Runs (minions_allocated kind allocations) s d =
      confirm_minions_allocation-Runs n w kind allocations s d
  handle_request-Runs (minions_allocation_failed kind) s d =
      report_minions_allocation_error-Runs (suc n) w kind s d

pub serve-Evolves :
    (w : World) (rs : List Request) (s : Store) → Distinct (ids_of s) → Evolves s (serve w rs s)
unfolding serve
serve-Evolves w [] s d = Evolves-refl s
serve-Evolves w (r ∷ rs) s d =
    let first = (handle_request-Runs 0 w r s d).ran.evolves in
    Evolves-trans first (serve-Evolves w rs (handle_request w r s).1 (rw first.same_ids d))
