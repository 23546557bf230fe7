-- ===== src/Construction/Cases.antt =====
-- The theorems about new executions at small inputs.
use cloudshift.Prelude.{ℕ, ◌≡◌, refl, ◌≢◌, true, false, some, List, [], ◌∷◌, Dict, lookup, insert}
use cloudshift.Conductor.Store.{Task}
use cloudshift.Conductor.Results.{volumes_info}
use cloudshift.Construction.Fields.{export_info, source_environment, target_environment}
use cloudshift.Construction.Build.{run, run_all}
use cloudshift.Construction.Sanity.{
  SanityError, failed, passed, check_instance, check_rounds, check_round, gather, collect_fields,
  tasks_for,
}
use cloudshift.Construction.Transfer.{transfer_tasks, transfer_info, new_transfer_execution}
use cloudshift.Construction.Deployment.{deployment_tasks, new_deployment_execution}
use cloudshift.Construction.Updates.{update_tasks}
use cloudshift.Construction.Ordered.{Ordered}
use cloudshift.Construction.SanityLaws.{CanRun, check_instance-CanRun, check_instance-ne-no_fuel}
use cloudshift.Construction.OrderedLaws.{check_instance-Ordered}
use cloudshift.Construction.Executions.{new_executions-Ordered}
use cloudshift.Construction.TransferPasses.{transfer_options, new_transfer_execution-passes}
use cloudshift.Construction.DeploymentPasses.{
  deployment_options, new_values, new_deployment_execution-passes,
}

-- The names of the task info before an update.
abbrev known : List ℕ
known = volumes_info ∷ source_environment ∷ target_environment ∷ []

abbrev made : List Task
made = run_all (λ n. n) (λ _. update_tasks) (1 ∷ 2 ∷ []) []

abbrev old_info : Dict (Dict ℕ)
old_info = (1, (volumes_info, 5) ∷ (export_info, 6) ∷ []) ∷ []

update_passes : check_instance known (tasks_for 2 made) ≡ passed tt
unfolding check_instance check_rounds check_round gather collect_fields update_tasks run_all run
update_passes = refl

check_instance-CanRun_example : CanRun known [] (tasks_for 2 made)
check_instance-CanRun_example = check_instance-CanRun known (tasks_for 2 made) update_passes

check_instance-ne-no_fuel_example : check_instance [] made ≢ failed SanityError.no_fuel
check_instance-ne-no_fuel_example = check_instance-ne-no_fuel [] made

made-Ordered : Ordered made
made-Ordered =
    (new_executions-Ordered (λ n. n) (1 ∷ 2 ∷ []) (transfer_options true true true)
      (λ _. deployment_options true true true true) []).3

check_instance-Ordered_example :
    (check_instance [] (tasks_for 1 made) ≢ failed SanityError.deadlock)
    × (check_instance [] (tasks_for 1 made) ≢ failed SanityError.missing_dependency)
    × (check_instance [] (tasks_for 1 made) ≢ failed SanityError.invalid_initial_state)
check_instance-Ordered_example = check_instance-Ordered [] 1 made made-Ordered

new_transfer_execution-passes_example :
    new_transfer_execution (λ n. n) (transfer_options true false true) 8 9 (1 ∷ []) old_info
    ≡ passed (
      (run (λ n. n) 1 (transfer_tasks (transfer_options true false true)) []).1,
      insert 1 (transfer_info (transfer_options true false true) 8 9 (lookup 1 old_info)) old_info,
    )
new_transfer_execution-passes_example = new_transfer_execution-passes true false true 8 9 1 old_info

new_deployment_execution-passes_example :
    new_deployment_execution
      (λ n. n)
      (λ _. deployment_options false true true false)
      (λ _. 4)
      8
      9
      (1 ∷ [])
      old_info
    ≡ some (
        passed (
          (run (λ n. n) 1 (deployment_tasks (deployment_options false true true false)) []).1,
          insert 1
              (new_values
                (deployment_options false true true false)
                4
                8
                9
                ((volumes_info, 5) ∷ (export_info, 6) ∷ []))
              old_info,
        ))
unfolding lookup
new_deployment_execution-passes_example =
    new_deployment_execution-passes false true true false (λ _. 4) 8 9 1 old_info
      ((volumes_info, 5) ∷ (export_info, 6) ∷ []) refl refl refl
