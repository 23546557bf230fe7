-- ===== src/Conductor/Results.antt =====
-- conductor/rpc/server.py, `_handle_post_task_actions`, and the merge of a task's result into the
-- task info of its instance. A key of the task info is a number, and so is a value, with 0 for a
-- value that Python reads as false.
use cloudshift.Prelude.{
  ℕ, Bool, not, Option, none, some, [], ◌∷◌, any, ◌&&◌, Dict, lookup, insert, ◌==◌, if◌then◌else◌,
}
use cloudshift.Constants.{TaskType, is_active}
use cloudshift.Conductor.Store.{
  Task, Execution, World, update_parent_volumes_info, set_transfer_result, update_transfer,
  update_minion_machine, deallocate_minion_machine,
}
use cloudshift.Conductor.Effects.{M, ok, key_error, pure, raise, ◌>>=◌, ◌>>◌, invoke}

abbrev pub volumes_info : ℕ
volumes_info = 0

abbrev pub clone_disks : ℕ
clone_disks = 1

abbrev pub transfer_result : ℕ
transfer_result = 2

abbrev pub origin_minion_provider_properties : ℕ
origin_minion_provider_properties = 3

abbrev pub origin_minion_machine_id : ℕ
origin_minion_machine_id = 4

abbrev pub destination_minion_provider_properties : ℕ
destination_minion_provider_properties = 5

abbrev pub destination_minion_machine_id : ℕ
destination_minion_machine_id = 6

abbrev pub osmorphing_minion_provider_properties : ℕ
osmorphing_minion_provider_properties = 7

abbrev pub osmorphing_minion_machine_id : ℕ
osmorphing_minion_machine_id = 8

-- `d.get(key)`
abbrev or_zero : Option ℕ → ℕ
or_zero none = 0
or_zero (some v) = v

abbrev pub value_at : ℕ → Dict ℕ → ℕ
value_at key info = or_zero (lookup key info)

-- `d[key]`
abbrev pub required : Option ℕ → M ℕ
required none = raise key_error
required (some v) = pure v

-- `old.update(new)`
unfoldable pub merge : Dict ℕ → Dict ℕ → Dict ℕ
merge old [] = old
merge old ((k, v) ∷ new) = merge (insert k v old) new

abbrev pub or_empty : Option (Dict ℕ) → Dict ℕ
or_empty none = []
or_empty (some info) = info

-- `update_transfer_action_info_for_instance`: new values replace old ones; no values write nothing.
unfoldable pub update_action_info : ℕ → Dict ℕ → M (Dict ℕ)
unfolding merge
update_action_info name [] s = (ok (or_empty (lookup name s.info)), s)
update_action_info name (entry ∷ new) s =
    let merged = merge (or_empty (lookup name s.info)) (entry ∷ new) in
    (ok merged, record s { info = insert name merged s.info })

unfoldable pub other_tasks_running : Execution → Task → Bool
other_tasks_running execution task =
    any (λ t. not (t.id == task.id) && is_active t.status) execution.tasks

module _ (w : World) (task : Task) (info : Dict ℕ) where
  unfoldable pub update_minion : ℕ → ℕ → M Unit
  update_minion properties_key id_key = do
    properties ← required (lookup properties_key info)
    id ← required (lookup id_key info)
    invoke w (update_minion_machine id properties)

  unfoldable pub release_minion : ℕ → M Unit
  release_minion id_key = do
    id ← required (lookup id_key info)
    invoke w (deallocate_minion_machine id)

  unfoldable pub save_result : Option ℕ → M Unit
  save_result none = pure tt
  save_result (some result) =
      if w.fits_export_schema result
      then invoke w (set_transfer_result task.instance_name result)
      else pure tt

  unfoldable pub update_volumes : M Unit
  unfolding update_action_info
  update_volumes = do
    update_action_info task.instance_name ((volumes_info, value_at volumes_info info) ∷ [])
    pure tt

  unfoldable pub post_task_actions : TaskType → Execution → M Unit
  unfolding update_minion release_minion save_result update_volumes other_tasks_running
  post_task_actions TaskType.restore_transfer_disk_snapshots execution =
      let volumes = value_at volumes_info info in
      if volumes == 0
      then pure tt
      else invoke w (update_parent_volumes_info task.instance_name volumes)
  post_task_actions TaskType.delete_transfer_target_disk_snapshots execution =
      if value_at clone_disks info == 0
      then invoke w (update_parent_volumes_info task.instance_name 0)
      else pure tt
  post_task_actions TaskType.finalize_instance_deployment execution =
      save_result (lookup transfer_result info)
  post_task_actions TaskType.update_source_transfer execution = update_volumes
  post_task_actions TaskType.update_destination_transfer execution = do
    update_volumes
    if other_tasks_running execution task then pure tt else invoke w (update_transfer info)
  post_task_actions TaskType.attach_volumes_to_source_minion execution =
      update_minion origin_minion_provider_properties origin_minion_machine_id
  post_task_actions TaskType.detach_volumes_from_source_minion execution =
      update_minion origin_minion_provider_properties origin_minion_machine_id
  post_task_actions TaskType.attach_volumes_to_destination_minion execution =
      update_minion destination_minion_provider_properties destination_minion_machine_id
  post_task_actions TaskType.detach_volumes_from_destination_minion execution =
      update_minion destination_minion_provider_properties destination_minion_machine_id
  post_task_actions TaskType.attach_volumes_to_osmorphing_minion execution =
      update_minion osmorphing_minion_provider_properties osmorphing_minion_machine_id
  post_task_actions TaskType.detach_volumes_from_osmorphing_minion execution =
      update_minion osmorphing_minion_provider_properties osmorphing_minion_machine_id
  post_task_actions TaskType.release_source_minion execution =
      release_minion origin_minion_machine_id
  post_task_actions TaskType.release_destination_minion execution = do
    id ← required (lookup destination_minion_machine_id info)
    if id == value_at osmorphing_minion_machine_id info
        then pure tt
        else invoke w (deallocate_minion_machine id)
  post_task_actions TaskType.release_osmorphing_minion execution =
      release_minion osmorphing_minion_machine_id
  post_task_actions _ execution = pure tt

unfoldable pub handle_post_task_actions : World → Task → Execution → Dict ℕ → M Unit
unfolding post_task_actions
handle_post_task_actions w task execution info =
    post_task_actions w task info task.task_type execution
