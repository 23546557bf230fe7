-- ===== src/Construction/Fields.antt =====
-- coriolis/tasks: the names of the values of the task info, and the names that the runner of each
-- kind of task requires and returns.
use cloudshift.Prelude.{ℕ, List, [], ◌∷◌, ◌++◌, map}
use cloudshift.Constants.{TaskType}
use cloudshift.Conductor.Results.{
  volumes_info, clone_disks, transfer_result, origin_minion_provider_properties,
  destination_minion_provider_properties, osmorphing_minion_provider_properties,
}
use cloudshift.Conductor.Minions.{
  origin_minion_connection_info, destination_minion_backup_writer_connection_info,
  osmorphing_minion_connection_info,
}

abbrev pub source_environment : ℕ
source_environment = 13

abbrev pub target_environment : ℕ
target_environment = 14

abbrev pub export_info : ℕ
export_info = 15

abbrev pub source_resources : ℕ
source_resources = 16

abbrev pub source_resources_connection_info : ℕ
source_resources_connection_info = 17

abbrev pub target_resources : ℕ
target_resources = 18

abbrev pub target_resources_connection_info : ℕ
target_resources_connection_info = 19

abbrev pub instance_deployment_info : ℕ
instance_deployment_info = 20

abbrev pub os_morphing_resources : ℕ
os_morphing_resources = 21

abbrev pub osmorphing_info : ℕ
osmorphing_info = 22

abbrev pub osmorphing_connection_info : ℕ
osmorphing_connection_info = 23

abbrev pub user_scripts : ℕ
user_scripts = 24

abbrev mapped_keys : List (ℕ × ℕ) → List ℕ
mapped_keys mappings = map (λ entry. entry.0) mappings

abbrev mapped_values : List (ℕ × ℕ) → List ℕ
mapped_values mappings = map (λ entry. entry.1) mappings

abbrev source_minion_task_info_field_mappings : List (ℕ × ℕ)
source_minion_task_info_field_mappings =
    (origin_minion_provider_properties, source_resources)
    ∷ (origin_minion_connection_info, source_resources_connection_info)
    ∷ []

abbrev target_minion_task_info_field_mappings : List (ℕ × ℕ)
target_minion_task_info_field_mappings =
    (destination_minion_provider_properties, target_resources)
    ∷ (destination_minion_backup_writer_connection_info, target_resources_connection_info)
    ∷ []

abbrev osmorphing_minion_task_info_field_mappings : List (ℕ × ℕ)
osmorphing_minion_task_info_field_mappings =
    (osmorphing_minion_provider_properties, os_morphing_resources)
    ∷ (osmorphing_minion_connection_info, osmorphing_connection_info)
    ∷ []

-- The minion tasks; the last argument is the name that the subclass adds to the base's list.
abbrev attachment_required : List (ℕ × ℕ) → ℕ → List ℕ
attachment_required mappings field = mapped_keys mappings ++ field ∷ []

abbrev attachment_returned : List (ℕ × ℕ) → ℕ → ℕ → List ℕ
attachment_returned mappings properties field =
    (mapped_values mappings ++ properties ∷ []) ++ field ∷ []

abbrev compatibility_required : List (ℕ × ℕ) → ℕ → ℕ → List ℕ
compatibility_required mappings environment properties =
    export_info ∷ environment ∷ properties ∷ mapped_keys mappings

abbrev release_fields : List (ℕ × ℕ) → List ℕ
release_fields mappings = mapped_keys mappings ++ mapped_values mappings

-- `get_required_task_info_properties` of the class that `_TASKS_MAP` has for a type; the classes stand in
-- replica_tasks.py, migration_tasks.py, osmorphing_tasks.py and minion_pool_tasks.py. The order of a list that the code
-- makes from a set plays no part, nor does a name that is in it twice.
abbrev pub required_fields : TaskType → List ℕ
required_fields TaskType.finalize_instance_deployment =
    target_environment ∷ instance_deployment_info ∷ []
required_fields TaskType.cleanup_failed_instance_deployment =
    target_environment ∷ instance_deployment_info ∷ []
required_fields TaskType.deploy_os_morphing_resources =
    target_environment ∷ instance_deployment_info ∷ []
required_fields TaskType.os_morphing =
    osmorphing_info ∷ osmorphing_connection_info ∷ user_scripts ∷ []
required_fields TaskType.delete_os_morphing_resources =
    target_environment ∷ os_morphing_resources ∷ []
required_fields TaskType.get_instance_info = source_environment ∷ []
required_fields TaskType.deploy_transfer_disks =
    export_info ∷ volumes_info ∷ target_environment ∷ []
required_fields TaskType.delete_transfer_source_disk_snapshots =
    volumes_info ∷ source_environment ∷ []
required_fields TaskType.delete_transfer_disks = volumes_info ∷ target_environment ∷ []
required_fields TaskType.replicate_disks =
    export_info ∷ volumes_info ∷ source_environment ∷ source_resources
    ∷ source_resources_connection_info ∷ target_resources_connection_info ∷ []
required_fields TaskType.deploy_transfer_source_resources = source_environment ∷ export_info ∷ []
required_fields TaskType.delete_transfer_source_resources =
    source_environment ∷ source_resources ∷ []
required_fields TaskType.deploy_transfer_target_resources =
    export_info ∷ volumes_info ∷ target_environment ∷ []
required_fields TaskType.delete_transfer_target_resources =
    target_resources ∷ target_environment ∷ []
required_fields TaskType.shutdown_instance = source_environment ∷ []
required_fields TaskType.deploy_instance_resources =
    export_info ∷ target_environment ∷ clone_disks ∷ volumes_info ∷ []
required_fields TaskType.create_transfer_disk_snapshots =
    target_environment ∷ export_info ∷ volumes_info ∷ []
required_fields TaskType.delete_transfer_target_disk_snapshots =
    target_environment ∷ export_info ∷ volumes_info ∷ []
required_fields TaskType.restore_transfer_disk_snapshots =
    target_environment ∷ export_info ∷ volumes_info ∷ []
required_fields TaskType.get_optimal_flavor = export_info ∷ target_environment ∷ []
required_fields TaskType.validate_transfer_source_inputs = source_environment ∷ []
required_fields TaskType.validate_transfer_destination_inputs =
    export_info ∷ target_environment ∷ []
required_fields TaskType.validate_deployment_inputs = export_info ∷ target_environment ∷ []
required_fields TaskType.update_source_transfer = volumes_info ∷ source_environment ∷ []
required_fields TaskType.update_destination_transfer =
    export_info ∷ volumes_info ∷ target_environment ∷ []
required_fields TaskType.attach_volumes_to_source_minion =
    attachment_required source_minion_task_info_field_mappings volumes_info
required_fields TaskType.detach_volumes_from_source_minion =
    attachment_required source_minion_task_info_field_mappings volumes_info
required_fields TaskType.attach_volumes_to_destination_minion =
    attachment_required target_minion_task_info_field_mappings volumes_info
required_fields TaskType.detach_volumes_from_destination_minion =
    attachment_required target_minion_task_info_field_mappings volumes_info
required_fields TaskType.attach_volumes_to_osmorphing_minion =
    attachment_required osmorphing_minion_task_info_field_mappings instance_deployment_info
required_fields TaskType.detach_volumes_from_osmorphing_minion =
    attachment_required osmorphing_minion_task_info_field_mappings instance_deployment_info
required_fields TaskType.validate_source_minion_pool_compatibility =
    compatibility_required source_minion_task_info_field_mappings source_environment
      origin_minion_provider_properties
required_fields TaskType.validate_destination_minion_pool_compatibility =
    compatibility_required target_minion_task_info_field_mappings target_environment
      destination_minion_provider_properties
required_fields TaskType.validate_osmorphing_minion_pool_compatibility =
    compatibility_required osmorphing_minion_task_info_field_mappings target_environment
      osmorphing_minion_provider_properties
required_fields TaskType.release_source_minion =
    release_fields source_minion_task_info_field_mappings
required_fields TaskType.release_destination_minion =
    release_fields target_minion_task_info_field_mappings
required_fields TaskType.release_osmorphing_minion =
    release_fields osmorphing_minion_task_info_field_mappings
required_fields TaskType.collect_osmorphing_info =
    target_environment ∷ instance_deployment_info ∷ []

-- `get_returned_task_info_properties` of the class of a type.
abbrev pub returned_fields : TaskType → List ℕ
returned_fields TaskType.finalize_instance_deployment = transfer_result ∷ []
returned_fields TaskType.cleanup_failed_instance_deployment = instance_deployment_info ∷ []
returned_fields TaskType.deploy_os_morphing_resources =
    os_morphing_resources ∷ osmorphing_info ∷ osmorphing_connection_info ∷ []
returned_fields TaskType.os_morphing = []
returned_fields TaskType.delete_os_morphing_resources =
    os_morphing_resources ∷ osmorphing_connection_info ∷ []
returned_fields TaskType.get_instance_info = export_info ∷ []
returned_fields TaskType.deploy_transfer_disks = volumes_info ∷ []
returned_fields TaskType.delete_transfer_source_disk_snapshots = volumes_info ∷ []
returned_fields TaskType.delete_transfer_disks = volumes_info ∷ []
returned_fields TaskType.replicate_disks = volumes_info ∷ []
returned_fields TaskType.deploy_transfer_source_resources =
    source_resources ∷ source_resources_connection_info ∷ []
returned_fields TaskType.delete_transfer_source_resources =
    source_resources ∷ source_resources_connection_info ∷ []
returned_fields TaskType.deploy_transfer_target_resources =
    volumes_info ∷ target_resources ∷ target_resources_connection_info ∷ []
returned_fields TaskType.delete_transfer_target_resources =
    target_resources ∷ target_resources_connection_info ∷ []
returned_fields TaskType.shutdown_instance = []
returned_fields TaskType.deploy_instance_resources = instance_deployment_info ∷ []
returned_fields TaskType.create_transfer_disk_snapshots = volumes_info ∷ []
returned_fields TaskType.delete_transfer_target_disk_snapshots = volumes_info ∷ []
returned_fields TaskType.restore_transfer_disk_snapshots = volumes_info ∷ []
returned_fields TaskType.get_optimal_flavor = instance_deployment_info ∷ []
returned_fields TaskType.validate_transfer_source_inputs = []
returned_fields TaskType.validate_transfer_destination_inputs = []
returned_fields TaskType.validate_deployment_inputs = []
returned_fields TaskType.update_source_transfer = volumes_info ∷ source_environment ∷ []
returned_fields TaskType.update_destination_transfer = volumes_info ∷ target_environment ∷ []
returned_fields TaskType.attach_volumes_to_source_minion =
    attachment_returned source_minion_task_info_field_mappings origin_minion_provider_properties
      volumes_info
returned_fields TaskType.detach_volumes_from_source_minion =
    attachment_returned source_minion_task_info_field_mappings origin_minion_provider_properties
      volumes_info
returned_fields TaskType.attach_volumes_to_destination_minion =
    attachment_returned target_minion_task_info_field_mappings
      destination_minion_provider_properties volumes_info
returned_fields TaskType.detach_volumes_from_destination_minion =
    attachment_returned target_minion_task_info_field_mappings
      destination_minion_provider_properties volumes_info
returned_fields TaskType.attach_volumes_to_osmorphing_minion =
    attachment_returned osmorphing_minion_task_info_field_mappings
      osmorphing_minion_provider_properties instance_deployment_info
returned_fields TaskType.detach_volumes_from_osmorphing_minion =
    attachment_returned osmorphing_minion_task_info_field_mappings
      osmorphing_minion_provider_properties instance_deployment_info
returned_fields TaskType.validate_source_minion_pool_compatibility =
    mapped_values source_minion_task_info_field_mappings
returned_fields TaskType.validate_destination_minion_pool_compatibility =
    mapped_values target_minion_task_info_field_mappings
returned_fields TaskType.validate_osmorphing_minion_pool_compatibility =
    mapped_values osmorphing_minion_task_info_field_mappings
returned_fields TaskType.release_source_minion =
    release_fields source_minion_task_info_field_mappings
returned_fields TaskType.release_destination_minion =
    release_fields target_minion_task_info_field_mappings
returned_fields TaskType.release_osmorphing_minion =
    release_fields osmorphing_minion_task_info_field_mappings
returned_fields TaskType.collect_osmorphing_info = osmorphing_info ∷ []
