-- ===== src/Construction/Transfer.antt =====
-- conductor/rpc/server.py, `execute_transfer_tasks`: the tasks and the task info of the execution
-- of a transfer.
use cloudshift.Prelude.{
  ℕ, Bool, true, false, Option, none, some, List, [], ◌∷◌, ◌++◌, Dict, lookup, insert, ◌==◌,
  if◌then◌else◌,
}
use cloudshift.Constants.{TaskType}
use cloudshift.Conductor.Results.{
  volumes_info, origin_minion_provider_properties, origin_minion_machine_id,
  destination_minion_provider_properties, destination_minion_machine_id,
}
use cloudshift.Conductor.Minions.{
  origin_minion_connection_info, destination_minion_connection_info,
  destination_minion_backup_writer_connection_info,
}
use cloudshift.Construction.Fields.{source_environment, target_environment}
use cloudshift.Conductor.Store.{Task}
use cloudshift.Construction.Sanity.{Check, passed, check_instances, and_then}
use cloudshift.Construction.Build.{
  run_all, Build, done, create_task, create_cleanup_task, ◌>>=◌, ◌>>◌,
}

-- What the code tests of the transfer and of the request; an identifier of a pool is present or
-- null.
pub record TransferOptions : Type 0 where
  pub origin_minion_pool : Bool
  pub destination_minion_pool : Bool
  pub shutdown_instances : Bool

-- The last validation task on the source: the pool's, or the one before.
abbrev pub validate_origin_minion : Bool → (info_task source_inputs_task : ℕ) → Build ℕ
validate_origin_minion true info source_inputs =
    create_task TaskType.validate_source_minion_pool_compatibility (info ∷ source_inputs ∷ [])
validate_origin_minion false info source_inputs = done source_inputs

abbrev pub validate_destination_minion : Bool → (destination_inputs_task : ℕ) → Build ℕ
validate_destination_minion true destination_inputs =
    create_task TaskType.validate_destination_minion_pool_compatibility (destination_inputs ∷ [])
validate_destination_minion false destination_inputs = done destination_inputs

-- The task that deploys the source's resources, if there is one.
abbrev pub deploy_source_resources : (origin_pool : Bool) → (disks_task : ℕ) → Build (List ℕ)
deploy_source_resources true disks = done []
deploy_source_resources false disks = do
  resources ← create_task TaskType.deploy_transfer_source_resources (disks ∷ [])
  done (resources ∷ [])

abbrev pub deploy_target_resources : (destination_pool : Bool) → (disks_task : ℕ) → Build ℕ
deploy_target_resources true disks =
    create_task TaskType.attach_volumes_to_destination_minion (disks ∷ [])
deploy_target_resources false disks =
    create_task TaskType.deploy_transfer_target_resources (disks ∷ [])

abbrev pub shut_down : Bool → (shutdown_deps : List ℕ) → Build (List ℕ)
shut_down true deps = do
  shutdown ← create_task TaskType.shutdown_instance deps
  done (shutdown ∷ [])
shut_down false deps = done deps

abbrev pub clean_source_up :
    (origin_pool : Bool) → (validate : ℕ) (resources : List ℕ) (replicate : ℕ) → Build ℕ
clean_source_up true validate resources replicate =
    create_cleanup_task true TaskType.release_source_minion (validate ∷ replicate ∷ [])
clean_source_up false validate resources replicate =
    create_cleanup_task true TaskType.delete_transfer_source_resources (resources ++ replicate ∷ [])

abbrev pub clean_target_up :
    (destination_pool : Bool) → (validate resources replicate : ℕ) → Build ℕ
clean_target_up true validate attach replicate = do
  detach ←
      create_cleanup_task true TaskType.detach_volumes_from_destination_minion
        (attach ∷ replicate ∷ [])
  create_cleanup_task true TaskType.release_destination_minion (validate ∷ detach ∷ [])
clean_target_up false validate resources replicate =
    create_cleanup_task true TaskType.delete_transfer_target_resources (resources ∷ replicate ∷ [])

-- The tasks of one instance.
unfoldable pub transfer_tasks : TransferOptions → Build Unit
transfer_tasks o = do
  source_inputs ← create_task TaskType.validate_transfer_source_inputs []
  info ← create_task TaskType.get_instance_info []
  destination_inputs ← create_task TaskType.validate_transfer_destination_inputs (info ∷ [])
  origin ← validate_origin_minion o.origin_minion_pool info source_inputs
  destination ← validate_destination_minion o.destination_minion_pool destination_inputs
  disks ← create_task TaskType.deploy_transfer_disks (origin ∷ destination ∷ [])
  source ← deploy_source_resources o.origin_minion_pool disks
  target ← deploy_target_resources o.destination_minion_pool disks
  deps ← shut_down o.shutdown_instances (source ++ target ∷ [])
  replicate ← create_task TaskType.replicate_disks deps
  clean_source_up o.origin_minion_pool origin source replicate
  clean_target_up o.destination_minion_pool destination target replicate
  done tt

-- `info.update({...})` with null values, which are 0.
abbrev pub set_all : List ℕ → Dict ℕ → Dict ℕ
set_all [] values = values
set_all (field ∷ fields) values = set_all fields (insert field 0 values)

-- The task info of an instance: `volumes_info` becomes an empty list where it is missing or null,
-- and an empty list and null are both 0.
abbrev pub default_volumes : Option (Dict ℕ) → Dict ℕ
default_volumes none = (volumes_info, 0) ∷ []
default_volumes (some values) = volumes (lookup volumes_info values)
  where
    volumes : Option ℕ → Dict ℕ
    volumes none = insert volumes_info 0 values
    volumes (some v) = if v == 0 then insert volumes_info 0 values else values

abbrev pub origin_pool_fields : Bool → List ℕ
origin_pool_fields true =
    origin_minion_machine_id ∷ origin_minion_provider_properties ∷ origin_minion_connection_info
    ∷ []
origin_pool_fields false = []

abbrev pub destination_pool_fields : Bool → List ℕ
destination_pool_fields true =
    destination_minion_machine_id ∷ destination_minion_provider_properties
    ∷ destination_minion_connection_info ∷ destination_minion_backup_writer_connection_info ∷ []
destination_pool_fields false = []

-- The two environments are values of the transfer.
unfoldable pub transfer_info : TransferOptions → (source target : ℕ) → Option (Dict ℕ) → Dict ℕ
unfolding lookup insert
transfer_info o source target old = set_all (destination_pool_fields o.destination_minion_pool) (
    set_all (origin_pool_fields o.origin_minion_pool)
      (insert target_environment target (insert source_environment source (default_volumes old))))

-- The loop over the instances, for the task info.
unfoldable pub transfer_infos :
    TransferOptions → (source target : ℕ) → (instances : List ℕ) → Dict (Dict ℕ) → Dict (Dict ℕ)
unfolding lookup insert transfer_info
transfer_infos o source target [] info = info
transfer_infos o source target (i ∷ is) info =
    transfer_infos o source target is
      (insert i (transfer_info o source target (lookup i info)) info)

-- The tasks and the task info of a new execution, when they pass the check. The instances are
-- checked in the order of the list.
unfoldable pub new_transfer_execution :
    (uuid : ℕ → ℕ)
    → TransferOptions
    → (source target : ℕ) → (instances : List ℕ) → Dict (Dict ℕ)
    → Check (List Task × Dict (Dict ℕ))
unfolding run_all transfer_tasks transfer_infos check_instances
new_transfer_execution uuid o source target instances info =
    let tasks = run_all uuid (λ _. transfer_tasks o) instances [] in
    let new_info = transfer_infos o source target instances info in
    and_then (check_instances instances tasks new_info) (λ _. passed (tasks, new_info))
