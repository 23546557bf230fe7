-- ===== src/Construction/Updates.antt =====
-- conductor/rpc/server.py, `delete_transfer_disks` and `update_transfer`: the tasks of these two
-- kinds of executions.
use cloudshift.Prelude.{
  ℕ, Bool, true, false, not, Option, none, some, List, [], ◌∷◌, any, Dict, lookup, ◌==◌,
  if◌then◌else◌,
}
use cloudshift.Constants.{TaskType}
use cloudshift.Conductor.Store.{Task}
use cloudshift.Conductor.Results.{volumes_info}
use cloudshift.Construction.Build.{Build, done, create_task, run_all, ◌>>=◌, ◌>>◌}

-- Whether the info of an instance is there, with volumes: an empty list is 0.
abbrev pub has_volumes : Dict (Dict ℕ) → ℕ → Bool
has_volumes info i = of_values (lookup i info)
  where
    truth : Option ℕ → Bool
    truth none = false
    truth (some v) = not (v == 0)

    of_values : Option (Dict ℕ) → Bool
    of_values none = false
    of_values (some values) = truth (lookup volumes_info values)

abbrev pub delete_disks : Build Unit
delete_disks = do
  source ← create_task TaskType.delete_transfer_source_disk_snapshots []
  create_task TaskType.delete_transfer_disks (source ∷ [])
  done tt

-- The tasks of one instance, when it has volumes.
unfoldable pub delete_disks_tasks : (has_volumes : Bool) → Build Unit
delete_disks_tasks true = delete_disks
delete_disks_tasks false = done tt

-- The tasks of the execution; an InvalidTransferState is `none`.
unfoldable pub delete_transfer_disks :
    (uuid : ℕ → ℕ) → Dict (Dict ℕ) → (instances : List ℕ) → Option (List Task)
unfolding delete_disks_tasks run_all lookup
delete_transfer_disks uuid info instances =
    if any (has_volumes info) instances
    then some (run_all uuid (λ i. delete_disks_tasks (has_volumes info i)) instances [])
    else none

-- The tasks of one instance of an update.
unfoldable pub update_tasks : Build Unit
update_tasks = do
  info ← create_task TaskType.get_instance_info []
  source ← create_task TaskType.update_source_transfer []
  create_task TaskType.update_destination_transfer (info ∷ source ∷ [])
  done tt
