-- ===== src/Construction/Deployment.antt =====
-- conductor/rpc/server.py, `_execute_deployment`: the tasks and the task info of a deployment.
use cloudshift.Prelude.{
  ℕ, Bool, true, false, not, ◌&&◌, Option, none, some, List, [], ◌∷◌, Dict, lookup, insert,
  if◌then◌else◌,
}
use cloudshift.Constants.{TaskType}
use cloudshift.Conductor.Results.{
  clone_disks, osmorphing_minion_provider_properties, osmorphing_minion_machine_id,
}
use cloudshift.Conductor.Minions.{osmorphing_minion_connection_info}
use cloudshift.Construction.Fields.{source_environment, target_environment, user_scripts}
use cloudshift.Conductor.Store.{Task}
use mathlib.Core.Option
use cloudshift.Construction.Sanity.{Check, passed, check_instances, and_then}
use cloudshift.Construction.Build.{
  run_all, Build, done, create_task, create_cleanup_task, create_on_error_only_task, ◌>>=◌, ◌>>◌,
}
use cloudshift.Construction.Transfer.{set_all}

-- What the code tests for one instance: the flags of the deployment, whether the instance has a
-- minion pool for OS morphing, and whether the destination's provider can choose a flavor.
pub record DeploymentOptions : Type 0 where
  pub skip_os_morphing : Bool
  pub osmorphing_minion_pool : Bool
  pub instance_flavor : Bool
  pub clones_disks : Bool

abbrev pub validate_osmorphing_minion : Bool → (inputs_task : ℕ) → Build ℕ
validate_osmorphing_minion true inputs =
    create_task TaskType.validate_osmorphing_minion_pool_compatibility (inputs ∷ [])
validate_osmorphing_minion false inputs = done inputs

-- On a minion of the pool.
abbrev pub morph_on_minion : (validate deploy : ℕ) → Build (List ℕ)
morph_on_minion validate deploy = do
  attach ← create_task TaskType.attach_volumes_to_osmorphing_minion (validate ∷ deploy ∷ [])
  collect ← create_task TaskType.collect_osmorphing_info (attach ∷ [])
  morph ← create_task TaskType.os_morphing (collect ∷ [])
  detach ←
      create_cleanup_task true TaskType.detach_volumes_from_osmorphing_minion (attach ∷ morph ∷ [])
  release ← create_cleanup_task true TaskType.release_osmorphing_minion (validate ∷ detach ∷ [])
  done (morph ∷ release ∷ [])

-- On a machine of its own.
abbrev pub morph_on_resources : (deploy : ℕ) → Build (List ℕ)
morph_on_resources deploy = do
  resources ← create_task TaskType.deploy_os_morphing_resources (deploy ∷ [])
  morph ← create_task TaskType.os_morphing (resources ∷ [])
  delete ← create_cleanup_task true TaskType.delete_os_morphing_resources (resources ∷ morph ∷ [])
  done (morph ∷ delete ∷ [])

-- What the tasks after the OS morphing depend on.
abbrev pub morph_os :
    (skip_os_morphing osmorphing_pool : Bool) → (validate deploy : ℕ) → Build (List ℕ)
morph_os true pool validate deploy = done (deploy ∷ [])
morph_os false true validate deploy = morph_on_minion validate deploy
morph_os false false validate deploy = morph_on_resources deploy

abbrev pub choose_flavor : Bool → (deps : List ℕ) → Build (List ℕ)
choose_flavor true deps = do
  flavor ← create_task TaskType.get_optimal_flavor deps
  done (flavor ∷ [])
choose_flavor false deps = done deps

abbrev pub restore_snapshots : (clone_disks : Bool) → (cleanup : ℕ) → Build Unit
restore_snapshots true cleanup = done tt
restore_snapshots false cleanup = do
  restore ← create_cleanup_task true TaskType.restore_transfer_disk_snapshots (cleanup ∷ [])
  done tt

-- The tasks of one instance.
unfoldable pub deployment_tasks : DeploymentOptions → Build Unit
deployment_tasks o = do
  inputs ← create_task TaskType.validate_deployment_inputs []
  validate ← validate_osmorphing_minion (not o.skip_os_morphing && o.osmorphing_minion_pool) inputs
  snapshot ← create_task TaskType.create_transfer_disk_snapshots (validate ∷ [])
  deploy ← create_task TaskType.deploy_instance_resources (snapshot ∷ [])
  morphed ← morph_os o.skip_os_morphing o.osmorphing_minion_pool validate deploy
  deps ← choose_flavor o.instance_flavor morphed
  finalize ← create_task TaskType.finalize_instance_deployment deps
  create_cleanup_task o.clones_disks TaskType.delete_transfer_target_disk_snapshots
      (snapshot ∷ finalize ∷ [])
  cleanup ←
      create_on_error_only_task TaskType.cleanup_failed_instance_deployment (deploy ∷ finalize ∷ [])
  restore_snapshots o.clones_disks cleanup

abbrev pub osmorphing_pool_fields : Bool → List ℕ
osmorphing_pool_fields true =
    osmorphing_minion_machine_id ∷ osmorphing_minion_provider_properties
    ∷ osmorphing_minion_connection_info ∷ []
osmorphing_pool_fields false = []

-- The task info of an instance, from that of the transfer. A missing instance is a KeyError: the
-- first assignment reads it, before the test that would have made it.
unfoldable pub deployment_info :
    DeploymentOptions → (scripts source target : ℕ) → Option (Dict ℕ) → Option (Dict ℕ)
unfolding insert
deployment_info o scripts source target none = none
deployment_info o scripts source target (some values) = some (
    set_all (osmorphing_pool_fields (not o.skip_os_morphing && o.osmorphing_minion_pool)) (
      insert target_environment target (
        insert source_environment source (
          insert user_scripts scripts
            (insert clone_disks (if o.clones_disks then 1 else 0) values)))))

abbrev pub with_values :
    Option (Dict ℕ) → (Dict ℕ → Option (Dict (Dict ℕ))) → Option (Dict (Dict ℕ))
with_values none f = none
with_values (some values) f = f values

-- The loop over the instances, for the task info; a KeyError is `none`.
unfoldable pub deployment_infos :
    (options : ℕ → DeploymentOptions) (scripts : ℕ → ℕ) (source target : ℕ)
    → (instances : List ℕ) → Dict (Dict ℕ)
    → Option (Dict (Dict ℕ))
unfolding lookup insert deployment_info
deployment_infos options scripts source target [] info = some info
deployment_infos options scripts source target (i ∷ is) info =
    with_values (deployment_info (options i) (scripts i) source target (lookup i info))
      (λ values. deployment_infos options scripts source target is (insert i values info))

-- The tasks and the task info of a new deployment, when they pass the check.
unfoldable pub new_deployment_execution :
    (uuid : ℕ → ℕ) (options : ℕ → DeploymentOptions) (scripts : ℕ → ℕ) (source target : ℕ)
    → (instances : List ℕ) → Dict (Dict ℕ)
    → Option (Check (List Task × Dict (Dict ℕ)))
unfolding run_all deployment_tasks deployment_infos check_instances
new_deployment_execution uuid options scripts source target instances info =
    let tasks = run_all uuid (λ i. deployment_tasks (options i)) instances [] in
    Option.map
      (λ new_info.
        and_then (check_instances instances tasks new_info) (λ _. passed (tasks, new_info)))
      (deployment_infos options scripts source target instances info)
