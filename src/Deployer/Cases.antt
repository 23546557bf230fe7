-- ===== src/Deployer/Cases.antt =====
-- The deployer manager at two deployments that wait for executions of the same transfer.
use cloudshift.Prelude.{ℕ, ◌≡◌, true, some, [], ◌∷◌, ◌⊎◌}
use cloudshift.Prelude.Results.{done}
use cloudshift.Constants.{ExecutionStatus, ExecutionType}
use cloudshift.Deployer.Deployments.{TasksExecution, Deployment, Conductor, Reply}
use cloudshift.Deployer.Manager.{Launch, put_in_error, check_deployer_status}
use cloudshift.Deployer.Launches.{IsLaunched, check_deployer_status-IsLaunched}

abbrev execution : ℕ → ExecutionStatus → TasksExecution
execution id status = record { id = id; type = ExecutionType.transfer_execution; status = status }

abbrev deployment : (id deployer_id : ℕ) → Deployment
deployment id deployer_id = record {
  id = id;
  transfer_id = 1;
  deployer_id = some deployer_id;
  last_execution_status = ExecutionStatus.pending;
  executions = [];
}

-- The first deployment waits for an execution that has completed; another one is_active_one.
abbrev conductor : Conductor
conductor = record {
  transfers =
      record {
        id = 1;
        executions =
            execution 11 ExecutionStatus.completed ∷ execution 12 ExecutionStatus.running ∷ [];
        have_volumes_info = true ∷ [];
      }
      ∷ [];
  deployments = deployment 21 11 ∷ deployment 22 12 ∷ [];
}

-- The machines for the OS morphing cannot be asked for, after the execution was added.
abbrev broken_launch : Deployment → Launch
broken_launch d =
    Launch.broken
      (record { id = 31; type = ExecutionType.deployment; status = ExecutionStatus.unexecuted })

abbrev seen_running : ℕ → Reply ExecutionStatus
seen_running i = done ExecutionStatus.running

-- The same, without the second execution.
abbrev idle_conductor : Conductor
idle_conductor = record conductor {
  transfers =
      record {
        id = 1;
        executions = execution 11 ExecutionStatus.completed ∷ [];
        have_volumes_info = true ∷ [];
      }
      ∷ [];
}

check_deployer_status-IsLaunched_example :
    ((check_deployer_status true broken_launch seen_running 21 idle_conductor).1 ≡ idle_conductor)
    ⊎ (((check_deployer_status true broken_launch seen_running 21 idle_conductor).1
          ≡ put_in_error 21 idle_conductor)
        ⊎ IsLaunched 21 idle_conductor
            (check_deployer_status true broken_launch seen_running 21 idle_conductor).1)
check_deployer_status-IsLaunched_example =
    check_deployer_status-IsLaunched true broken_launch seen_running 21 idle_conductor
