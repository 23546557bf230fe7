-- ===== src/Deployer/Manager.antt =====
-- deployer_manager/rpc/server.py, and the conductor's two calls: what becomes of the deployments
-- that wait for an execution, their deployer. A check is one run of `_check_deployer_status`, a
-- round one pass of `_loop`. What the minion manager and the licensing answer, what the rest of
-- `_execute_deployment` gives and the statuses that the polls see are arguments.
use cloudshift.Prelude.{
  ℕ, zero, suc, ◌+◌, Bool, true, false, Option, none, some, List, [], ◌∷◌, map, filter,
  if◌then◌else◌,
}
use cloudshift.Prelude.Results.{done, raised, ◌>>=◌, ensure}
use cloudshift.Constants.{ExecutionStatus}
use cloudshift.Deployer.Deployments.{
  DeployError, TasksExecution, Deployment, Conductor, Reply, find_deployment,
  get_transfer_tasks_execution, check_launch, set_action_last_execution_status, add_execution,
  with_deployments,
}

abbrev pub is_pending : ExecutionStatus → Bool
is_pending ExecutionStatus.pending = true
is_pending _ = false

-- What the status of the deployer means: it is active, it has completed, or it has failed or is
-- in a state that it cannot be in.
pub data Verdict : Type 0 where
  active completed failed : Verdict

abbrev pub verdict : ExecutionStatus → Verdict
verdict ExecutionStatus.unexecuted = Verdict.active
verdict ExecutionStatus.running = Verdict.active
verdict ExecutionStatus.awaiting_minion_allocations = Verdict.active
verdict ExecutionStatus.completed = Verdict.completed
verdict _ = Verdict.failed

abbrev pub max_retries : ℕ
max_retries = 60

-- InvalidDeploymentState for a deployment without a deployer.
abbrev pub deployer_of : Option ℕ → Reply ℕ
deployer_of none = raised DeployError.invalid_deployment_state
deployer_of (some id) = done id

-- The status of the deployer of a deployment.
unfoldable pub deployer_status : (deployment_id : ℕ) → Conductor → Reply ExecutionStatus
deployer_status id c = do
  d ← find_deployment id c.deployments
  deployer_id ← deployer_of d.deployer_id
  execution ← get_transfer_tasks_execution d.transfer_id deployer_id c
  done execution.status

abbrev pub put_in_error : (deployment_id : ℕ) → Conductor → Conductor
put_in_error id c =
    with_deployments c (set_action_last_execution_status ExecutionStatus.error id c.deployments)

abbrev pub with_execution : TasksExecution → (deployment_id : ℕ) → Conductor → Conductor
with_execution execution id c = with_deployments c (add_execution execution id c.deployments)

-- The status is written also where the call raises.
unfoldable pub report_deployer_failure : (deployment_id : ℕ) → Conductor → Reply Unit × Conductor
report_deployer_failure id c = (
  find_deployment id c.deployments >>= λ d.
      ensure (is_pending d.last_execution_status) DeployError.invalid_deployment_state,
  put_in_error id c,
)

-- How the rest of `_execute_deployment` ends: with an error before the execution is added, with an
-- error of a later call, or without one; the execution is its row then, which `_begin_tasks` and
-- the request for machines may have changed.
pub data Launch : Type 0 where
  not_made : Launch
  broken launched : TasksExecution → Launch

module _ (services_agree : Bool) (launch : Deployment → Launch)
    (observed : ℕ → Reply ExecutionStatus) where
  abbrev pub launch_deployment : (deployment_id : ℕ) → (force : Bool) → Conductor → Reply Launch
  launch_deployment id force c = do
    d ← find_deployment id c.deployments
    _ ← check_launch services_agree c d force
    done (launch d)

  -- An execution that has been added stays where a later call fails.
  abbrev pub conclude_launch :
      (deployment_id : ℕ) → Reply Launch → Conductor → Reply Unit × Conductor
  conclude_launch id (raised e) c = (raised e, put_in_error id c)
  conclude_launch id (done Launch.not_made) c = (raised DeployError.launch_error, put_in_error id c)
  conclude_launch id (done (Launch.broken execution)) c =
      (raised DeployError.launch_error, put_in_error id (with_execution execution id c))
  conclude_launch id (done (Launch.launched execution)) c = (done tt, with_execution execution id c)

  unfoldable pub confirm_deployer_completed :
      (deployment_id : ℕ) → (force : Bool) → Conductor → Reply Unit × Conductor
  confirm_deployer_completed id force c = conclude_launch id (launch_deployment id force c) c

  -- `_wait_for_pending_deployment_status_change`, from the poll `i` on, for so many polls.
  unfoldable pub wait_for_change : (polls : ℕ) (i : ℕ) → Reply Unit
  wait_for_change zero i = raised DeployError.invalid_deployment_state
  wait_for_change (suc polls) i =
      let rest = wait_for_change polls (i + 1) in
      observed i >>= λ status. if is_pending status then rest else done tt

  unfoldable pub on_verdict : Verdict → (deployment_id : ℕ) → Conductor → Reply Unit × Conductor
  unfolding confirm_deployer_completed wait_for_change
  on_verdict Verdict.active id c = (done tt, c)
  on_verdict Verdict.failed id c = (raised DeployError.invalid_transfer_state, c)
  on_verdict Verdict.completed id c =
      let confirmed = confirm_deployer_completed id false c in
      (confirmed.0 >>= λ _. wait_for_change max_retries 0, confirmed.1)

  -- The body of the `try`.
  unfoldable pub attempt_check :
      (deployment_id : ℕ) → Reply ExecutionStatus → Conductor → Reply Unit × Conductor
  unfolding on_verdict
  attempt_check id (raised e) c = (raised e, c)
  attempt_check id (done status) c = on_verdict (verdict status) id c

  unfoldable pub on_exception :
      (deployment_id : ℕ) → Reply Unit × Conductor → Reply Unit × Conductor
  unfolding report_deployer_failure
  on_exception id (done u, c) = (done u, c)
  on_exception id (raised e, c) = report_deployer_failure id c

  unfoldable pub check_deployer_status : (deployment_id : ℕ) → Conductor → Reply Unit × Conductor
  unfolding deployer_status attempt_check on_exception
  check_deployer_status id c = on_exception id (attempt_check id (deployer_status id c) c)

  unfoldable pub check_all : (deployment_ids : List ℕ) → Conductor → Reply Unit × Conductor
  unfolding check_deployer_status
  check_all [] c = (done tt, c)
  check_all (id ∷ ids) c =
      let checked = check_deployer_status id c in
      let rest = check_all ids checked.1 in elim checked.0 [ done u ↦ rest | raised e ↦ checked ]

  -- The deployments that were pending are checked one by one, until a check raises.
  unfoldable pub run_round : Conductor → Conductor
  unfolding check_all
  run_round c =
      (check_all (map (λ d. d.id) (filter (λ d. is_pending d.last_execution_status) c.deployments))
        c).1
