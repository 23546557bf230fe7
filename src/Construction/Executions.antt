-- ===== src/Construction/Executions.antt =====
-- The tasks of the executions that the conductor makes.
use cloudshift.Prelude.{ℕ, refl, Bool, true, false, List, [], All, Dict}
use cloudshift.Construction.Build.{Build, run_all}
use cloudshift.Construction.Ordered.{Ordered, run_all-Ordered, Closed}
use cloudshift.Construction.Scheduled.{Plain, IsScheduled, run_all-IsScheduled}
use cloudshift.Construction.Graphs.{
  transfer_tasks-Closed, deployment_tasks-Closed, delete_disks_tasks-Closed, update_tasks-Closed,
}
use cloudshift.Construction.Transfer.{TransferOptions, transfer_tasks}
use cloudshift.Construction.Deployment.{DeploymentOptions, deployment_tasks}
use cloudshift.Construction.Updates.{has_volumes, delete_disks_tasks, update_tasks}

-- In the executions of transfers and deployments, of the deletion of a transfer's disks and of the
-- update of a transfer, each task is made after the tasks that it depends on, which are tasks of
-- its own instance, and its status is SCHEDULED or ON_ERROR_ONLY; for any options, instances and
-- identifiers.
pub new_executions-Ordered :
    (uuid : ℕ → ℕ) (instances : List ℕ) (o : TransferOptions) (d : ℕ → DeploymentOptions)
    (info : Dict (Dict ℕ))
    → Ordered (run_all uuid (λ _. transfer_tasks o) instances [])
      × Ordered (run_all uuid (λ i. deployment_tasks (d i)) instances [])
      × Ordered (run_all uuid (λ i. delete_disks_tasks (has_volumes info i)) instances [])
      × Ordered (run_all uuid (λ _. update_tasks) instances [])
new_executions-Ordered uuid instances o d info = (
  ordered (λ _. transfer_tasks o)
      (λ _.
        transfer_tasks-Closed o.origin_minion_pool o.destination_minion_pool o.shutdown_instances),
  ordered (λ i. deployment_tasks (d i))
      (λ i.
        deployment_tasks-Closed (d i).skip_os_morphing (d i).osmorphing_minion_pool
          (d i).instance_flavor (d i).clones_disks),
  ordered _ (λ i. delete_disks_tasks-Closed (has_volumes info i)),
  ordered _ (λ _. update_tasks-Closed),
)
  where
    ordered :
        (build : ℕ → Build Unit)
        → ((i : ℕ) → Closed [] (build i))
        → Ordered (run_all uuid build instances [])
    ordered build closed = run_all-Ordered uuid build instances [] closed Ordered.none_made

transfer_tasks-Plain :
    (o p s : Bool)
    → Plain (
        transfer_tasks
          (record { origin_minion_pool = o; destination_minion_pool = p; shutdown_instances = s }))
unfolding transfer_tasks Plain
transfer_tasks-Plain true true true = search refl depth 40 fits 4000
transfer_tasks-Plain true true false = search refl depth 40 fits 4000
transfer_tasks-Plain true false true = search refl depth 40 fits 4000
transfer_tasks-Plain true false false = search refl depth 40 fits 4000
transfer_tasks-Plain false true true = search refl depth 40 fits 4000
transfer_tasks-Plain false true false = search refl depth 40 fits 4000
transfer_tasks-Plain false false true = search refl depth 40 fits 4000
transfer_tasks-Plain false false false = search refl depth 40 fits 4000

-- Every task of the execution of a transfer is SCHEDULED when it is made, the cleanup tasks too:
-- these depend on tasks that are scheduled.
pub transfer_tasks-IsScheduled :
    (uuid : ℕ → ℕ) (instances : List ℕ) (o : TransferOptions)
    → All IsScheduled (run_all uuid (λ _. transfer_tasks o) instances [])
transfer_tasks-IsScheduled uuid instances o =
    run_all-IsScheduled uuid (λ _. transfer_tasks o) instances []
      (λ _.
        transfer_tasks-Closed o.origin_minion_pool o.destination_minion_pool o.shutdown_instances)
      (λ _.
        transfer_tasks-Plain o.origin_minion_pool o.destination_minion_pool o.shutdown_instances)
      tt
