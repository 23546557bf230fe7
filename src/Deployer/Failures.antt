-- ===== src/Deployer/Failures.antt =====
-- What a launch that fails does to the round of the deployer manager.
use cloudshift.Prelude.{ℕ, ◌≡◌, ◌⊎◌}
use cloudshift.Prelude.Results.{done, raised}
use cloudshift.Constants.{ExecutionStatus}
use cloudshift.Deployer.Deployments.{TasksExecution, Deployment, Conductor, Reply}
use cloudshift.Deployer.Manager.{with_execution, put_in_error}

value_or : Deployment → Reply Deployment → Deployment
value_or d (done e) = e
value_or d (raised e) = d

abbrev in_error : Deployment → Deployment
in_error d = record d { last_execution_status = ExecutionStatus.error }

-- The deployment is in error, with the execution that was added, if one was.
abbrev pub HasFailed : (id : ℕ) (c after : Conductor) → Type 0
HasFailed id c after =
    (after ≡ put_in_error id c)
    ⊎ ((execution : TasksExecution) × (after ≡ put_in_error id (with_execution execution id c)))
