-- ===== src/Conductor/ResultRuns.antt =====
-- What follows the completion of a task leaves the rows of the execution alone.
use cloudshift.Prelude.{ℕ, refl, Option, none, some, [], ◌∷◌, Dict, lookup, ◌==◌}
use cloudshift.Constants.{TaskType}
use cloudshift.Conductor.Store.{Task, Execution, World}
use cloudshift.Conductor.Effects.{key_error}
use cloudshift.Conductor.Results.{
  volumes_info, clone_disks, value_at, required, update_action_info, other_tasks_running,
  update_minion, release_minion, save_result, update_volumes, post_task_actions,
  handle_post_task_actions, transfer_result, osmorphing_minion_machine_id,
  destination_minion_machine_id,
}
use cloudshift.Conductor.Quiet.{
  Quiet, whole, Quiet-pure, Quiet-raise, Quiet-bind, Quiet-seq, Quiet-if, Quiet-invoke,
}

required-Quiet : (o : Option ℕ) → Quiet whole (required o)
required-Quiet none = Quiet-raise key_error (λ e. cc)
required-Quiet (some v) = Quiet-pure v

pub update_action_info-Quiet : (name : ℕ) (new : Dict ℕ) → Quiet whole (update_action_info name new)
unfolding update_action_info
update_action_info-Quiet name [] = record {
  hushed = λ s. record { same_tasks = refl; same_begun = λ _. refl; fine = λ e. cc };
}
update_action_info-Quiet name (entry ∷ new) = record {
  hushed = λ s. record { same_tasks = refl; same_begun = λ _. refl; fine = λ e. cc };
}

module _ (w : World) (task : Task) (info : Dict ℕ) where
  update_minion-Quiet : (p i : ℕ) → Quiet whole (update_minion w task info p i)
  unfolding update_minion
  update_minion-Quiet p i =
      Quiet-bind _ _ (required-Quiet (lookup p info))
        λ v. Quiet-bind _ _ (required-Quiet (lookup i info)) λ id. Quiet-invoke w _ refl

  release_minion-Quiet : (i : ℕ) → Quiet whole (release_minion w task info i)
  unfolding release_minion
  release_minion-Quiet i =
      Quiet-bind _ _ (required-Quiet (lookup i info)) λ id. Quiet-invoke w _ refl

  save_result-Quiet : (o : Option ℕ) → Quiet whole (save_result w task info o)
  unfolding save_result
  save_result-Quiet none = Quiet-pure tt
  save_result-Quiet (some result) =
      Quiet-if (w.fits_export_schema result) _ _ (Quiet-invoke w _ refl) (Quiet-pure tt)

  update_volumes-Quiet : Quiet whole (update_volumes w task info)
  unfolding update_volumes
  update_volumes-Quiet =
      Quiet-seq _ _
        (update_action_info-Quiet task.instance_name
          ((volumes_info, value_at volumes_info info) ∷ []))
        (Quiet-pure tt)

  post_task_actions-Quiet :
      (type : TaskType) (e : Execution) → Quiet whole (post_task_actions w task info type e)
  unfolding post_task_actions
  post_task_actions-Quiet TaskType.restore_transfer_disk_snapshots e =
      Quiet-if (value_at volumes_info info == 0) _ _ (Quiet-pure tt) (Quiet-invoke w _ refl)
  post_task_actions-Quiet TaskType.delete_transfer_target_disk_snapshots e =
      Quiet-if (value_at clone_disks info == 0) _ _ (Quiet-invoke w _ refl) (Quiet-pure tt)
  post_task_actions-Quiet TaskType.finalize_instance_deployment e =
      save_result-Quiet (lookup transfer_result info)
  post_task_actions-Quiet TaskType.update_source_transfer e = update_volumes-Quiet
  post_task_actions-Quiet TaskType.update_destination_transfer e =
      Quiet-seq _ _ update_volumes-Quiet
        (Quiet-if (other_tasks_running e task) _ _ (Quiet-pure tt) (Quiet-invoke w _ refl))
  post_task_actions-Quiet TaskType.attach_volumes_to_source_minion e = update_minion-Quiet _ _
  post_task_actions-Quiet TaskType.detach_volumes_from_source_minion e = update_minion-Quiet _ _
  post_task_actions-Quiet TaskType.attach_volumes_to_destination_minion e = update_minion-Quiet _ _
  post_task_actions-Quiet TaskType.detach_volumes_from_destination_minion e =
      update_minion-Quiet _ _
  post_task_actions-Quiet TaskType.attach_volumes_to_osmorphing_minion e = update_minion-Quiet _ _
  post_task_actions-Quiet TaskType.detach_volumes_from_osmorphing_minion e = update_minion-Quiet _ _
  post_task_actions-Quiet TaskType.release_source_minion e = release_minion-Quiet _
  post_task_actions-Quiet TaskType.release_destination_minion e =
      Quiet-bind _ _ (required-Quiet (lookup destination_minion_machine_id info)) λ id.
        Quiet-if (id == value_at osmorphing_minion_machine_id info) _ _ (Quiet-pure tt)
          (Quiet-invoke w _ refl)
  post_task_actions-Quiet TaskType.release_osmorphing_minion e = release_minion-Quiet _
  post_task_actions-Quiet _ e = Quiet-pure tt

pub handle_post_task_actions-Quiet :
    (w : World) (task : Task) (e : Execution) (info : Dict ℕ)
    → Quiet whole (handle_post_task_actions w task e info)
unfolding handle_post_task_actions
handle_post_task_actions-Quiet w task e info = post_task_actions-Quiet w task info task.task_type e
