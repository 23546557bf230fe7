-- ===== src/Deployer/Deployments.antt =====
-- conductor/rpc/server.py: the guards before a deployment is launched, and the calls of the
-- deployer manager, `confirm_deployer_completed` and `report_deployer_failure`.
use cloudshift.Prelude.{
  ℕ, Bool, true, false, not, ◌&&◌, ◌||◌, Option, none, some, List, [], ◌∷◌, ◌++◌, map, any, all,
  is_empty, ◌==◌, if◌then◌else◌,
}
use cloudshift.Prelude.Results.{Fallible, done, raised, ◌>>=◌, ensure}
use cloudshift.Constants.{ExecutionStatus, ExecutionType, is_active_execution}

-- NotFound, InvalidTransferState, InvalidActionTasksExecutionState, InvalidDeploymentState; and an
-- error of the minion manager, of the licensing or of the rest of a launch.
pub data DeployError : Type 0 where
  not_found invalid_transfer_state invalid_action_tasks_execution_state : DeployError
  invalid_deployment_state launch_error : DeployError

pub record TasksExecution : Type 0 where
  pub id : ℕ
  pub type : ExecutionType
  pub status : ExecutionStatus

-- Of the info of a transfer, whether each instance has information of volumes.
pub record Transfer : Type 0 where
  pub id : ℕ
  pub executions : List TasksExecution
  pub have_volumes_info : List Bool

pub record Deployment : Type 0 where
  pub id : ℕ
  pub transfer_id : ℕ
  pub deployer_id : Option ℕ
  pub last_execution_status : ExecutionStatus
  pub executions : List TasksExecution

-- The rows that the conductor keeps.
pub record Conductor : Type 0 where
  pub transfers : List Transfer
  pub deployments : List Deployment

abbrev pub Reply : Type 0 → Type 0
Reply A = Fallible DeployError A

unfoldable pub find_transfer : ℕ → List Transfer → Reply Transfer
find_transfer id [] = raised DeployError.not_found
find_transfer id (t ∷ transfers) =
    let rest = find_transfer id transfers in if t.id == id then done t else rest

unfoldable pub find_deployment : ℕ → List Deployment → Reply Deployment
find_deployment id [] = raised DeployError.not_found
find_deployment id (d ∷ deployments) =
    let rest = find_deployment id deployments in if d.id == id then done d else rest

unfoldable pub find_execution : ℕ → List TasksExecution → Reply TasksExecution
find_execution id [] = raised DeployError.not_found
find_execution id (e ∷ executions) =
    let rest = find_execution id executions in if e.id == id then done e else rest

-- `_get_transfer_tasks_execution`
abbrev pub get_transfer_tasks_execution :
    (transfer_id execution_id : ℕ) → Conductor → Reply TasksExecution
get_transfer_tasks_execution transfer_id execution_id c =
    find_transfer transfer_id c.transfers >>= λ t. find_execution execution_id t.executions

-- `_get_execution_for_deployment`, not raising where there is none
abbrev pub get_execution_for_deployment : List TasksExecution → Reply (Option TasksExecution)
get_execution_for_deployment [] = done none
get_execution_for_deployment (e ∷ []) = done (some e)
get_execution_for_deployment (e ∷ f ∷ executions) = raised DeployError.invalid_deployment_state

abbrev pub is_active_one : Option TasksExecution → Bool
is_active_one none = false
is_active_one (some e) = is_active_execution e.status

unfoldable pub check_running_transfer_deployments : (transfer_id : ℕ) → List Deployment → Reply Unit
check_running_transfer_deployments transfer_id [] = done tt
check_running_transfer_deployments transfer_id (d ∷ deployments) =
    let rest = check_running_transfer_deployments transfer_id deployments in
    let here = get_execution_for_deployment d.executions >>= λ e.
    ensure (not (is_active_one e)) DeployError.invalid_transfer_state >>= λ _. rest in
    if d.transfer_id == transfer_id then here else rest

abbrev pub check_running_executions : List TasksExecution → Reply Unit
check_running_executions executions =
    ensure (not (any (λ e. is_active_execution e.status) executions))
      DeployError.invalid_action_tasks_execution_state

abbrev pub has_completed : ExecutionStatus → Bool
has_completed ExecutionStatus.completed = true
has_completed _ = false

abbrev pub is_transfer_execution : ExecutionType → Bool
is_transfer_execution ExecutionType.transfer_execution = true
is_transfer_execution _ = false

abbrev pub was_transferred : List TasksExecution → Bool
was_transferred executions =
    any (λ e. is_transfer_execution e.type && has_completed e.status) executions

abbrev pub check_valid_transfer_tasks_execution : List TasksExecution → (force : Bool) → Reply Unit
check_valid_transfer_tasks_execution executions force =
    ensure (not (is_empty executions) || force) DeployError.invalid_transfer_state >>= λ _.
    ensure (was_transferred executions || force) DeployError.invalid_transfer_state

-- `services_agree`: the minion manager validates the pools, and the reservation is confirmed.
unfoldable pub validate_deployment_inputs :
    (services_agree : Bool) → List Deployment → Transfer → (force : Bool) → Reply Unit
unfolding check_running_transfer_deployments
validate_deployment_inputs services_agree deployments transfer force = do
  _ ← check_running_executions transfer.executions
  _ ← check_running_transfer_deployments transfer.id deployments
  _ ← check_valid_transfer_tasks_execution transfer.executions force
  _ ← ensure (all (λ b. b) transfer.have_volumes_info) DeployError.invalid_transfer_state
  ensure services_agree DeployError.launch_error

-- `set_action_last_execution_status`
abbrev pub set_action_last_execution_status :
    ExecutionStatus → (deployment_id : ℕ) → List Deployment → List Deployment
set_action_last_execution_status status id deployments =
    map (λ d. if d.id == id then record d { last_execution_status = status } else d) deployments

abbrev pub add_execution : TasksExecution → (deployment_id : ℕ) → List Deployment → List Deployment
add_execution execution id deployments =
    map
      (λ d.
        if d.id == id
        then record d {
          executions = d.executions ++ execution ∷ [];
          last_execution_status = execution.status;
        }
        else d)
      deployments

abbrev pub with_deployments : Conductor → List Deployment → Conductor
with_deployments c deployments = record c { deployments = deployments }

-- A deployment without a deployer was validated when it was created.
abbrev pub unless_validated : (deployer_id : Option ℕ) → Reply Unit → Reply Unit
unless_validated none validation = done tt
unless_validated (some id) validation = validation

-- What is checked before a launch.
abbrev pub check_launch :
    (services_agree : Bool) → Conductor → Deployment → (force : Bool) → Reply Unit
check_launch services_agree c d force = find_transfer d.transfer_id c.transfers >>= λ transfer.
    unless_validated d.deployer_id
      (validate_deployment_inputs services_agree c.deployments transfer force)
