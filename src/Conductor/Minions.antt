-- ===== src/Conductor/Minions.antt =====
-- conductor/rpc/server.py: what the minion manager reports of the machines that an execution waits
-- for: confirm_transfer_minions_allocation and its three kin. The action's last execution is the one
-- of the store.
use cloudshift.Prelude.{
  ℕ, true, false, not, Option, none, some, List, [], ◌∷◌, ◌++◌, contains, is_empty, Dict, lookup,
  if◌then◌else◌,
}
use cloudshift.Constants.{ExecutionStatus}
use cloudshift.Conductor.Store.{World}
use cloudshift.Conductor.Effects.{
  Error, invalid_transfer_state, invalid_deployment_state, M, pure, raise, get, ◌>>=◌, ◌>>◌,
  for_each, get_tasks_execution,
}
use cloudshift.Conductor.Status.{is_awaiting, set_tasks_execution_status}
use cloudshift.Conductor.Engine.{run_cancel}
use cloudshift.Conductor.Results.{
  merge, update_action_info, origin_minion_provider_properties, origin_minion_machine_id,
  destination_minion_provider_properties, destination_minion_machine_id,
  osmorphing_minion_provider_properties, osmorphing_minion_machine_id,
}
use cloudshift.Conductor.Reports.{info_of}
use cloudshift.Conductor.Launch.{begin_tasks}

abbrev pub origin_minion_connection_info : ℕ
origin_minion_connection_info = 9

abbrev pub destination_minion_connection_info : ℕ
destination_minion_connection_info = 10

abbrev pub destination_minion_backup_writer_connection_info : ℕ
destination_minion_backup_writer_connection_info = 11

abbrev pub osmorphing_minion_connection_info : ℕ
osmorphing_minion_connection_info = 12

pub record Minion : Type 0 where
  pub id : ℕ
  pub provider_properties : ℕ
  pub connection_info : ℕ
  pub backup_writer_connection_info : ℕ

-- The machines that one instance was given.
pub record Allocation : Type 0 where
  pub origin_minion : Option Minion
  pub destination_minion : Option Minion
  pub osmorphing_minion : Option Minion

abbrev origin_info : Option Minion → Dict ℕ
origin_info none = []
origin_info (some m) =
    (origin_minion_machine_id, m.id)
    ∷ (origin_minion_provider_properties, m.provider_properties)
    ∷ (origin_minion_connection_info, m.connection_info)
    ∷ []

abbrev destination_info : Option Minion → Dict ℕ
destination_info none = []
destination_info (some m) =
    (destination_minion_machine_id, m.id)
    ∷ (destination_minion_provider_properties, m.provider_properties)
    ∷ (destination_minion_connection_info, m.connection_info)
    ∷ (destination_minion_backup_writer_connection_info, m.backup_writer_connection_info)
    ∷ []

abbrev osmorphing_info : Option Minion → Dict ℕ
osmorphing_info none = []
osmorphing_info (some m) =
    (osmorphing_minion_machine_id, m.id)
    ∷ (osmorphing_minion_provider_properties, m.provider_properties)
    ∷ (osmorphing_minion_connection_info, m.connection_info)
    ∷ []

-- The values that the machines of an instance add to its task info.
unfoldable pub minion_info : Option Allocation → Dict ℕ
minion_info none = []
minion_info (some a) =
    origin_info a.origin_minion
    ++ destination_info a.destination_minion
    ++ osmorphing_info a.osmorphing_minion

module _ (instances : List ℕ) (allocations : Dict Allocation) (info : Dict (Dict ℕ)) where
  -- The first loop only changes the caller's copy of the task info; it fails where an instance that
  -- was given machines has none.
  unfoldable pub check_instance_info : ℕ → M Unit
  unfolding minion_info
  check_instance_info name =
      if is_empty (minion_info (lookup name allocations))
      then pure tt
      else (do info_of (lookup name info); pure tt)

  -- The second loop writes the copy.
  unfoldable pub save_allocation : ℕ × Allocation → M Unit
  unfolding minion_info update_action_info
  save_allocation (name, allocation) =
      if contains name instances
      then (do
        old ← info_of (lookup name info)
        update_action_info name (merge old (minion_info (some allocation)))
        pure tt)
      else pure tt

  unfoldable pub update_task_info_for_minion_allocations : M Unit
  unfolding check_instance_info save_allocation for_each
  update_task_info_for_minion_allocations = do
    for_each check_instance_info instances
    for_each save_allocation allocations

-- Whether the action is a transfer or a deployment.
pub data ActionKind : Type 0 where
  transfer_action deployment_action : ActionKind

abbrev pub invalid_state : ActionKind → Error
invalid_state transfer_action = invalid_transfer_state
invalid_state deployment_action = invalid_deployment_state

module _ (w : World) (kind : ActionKind) where
  unfoldable pub confirm_minions_allocation : Dict Allocation → M Unit
  unfolding update_task_info_for_minion_allocations begin_tasks
  confirm_minions_allocation allocations = do
    s ← get
    if not (is_awaiting s.last_execution_status) then raise (invalid_state kind) else (do
      update_task_info_for_minion_allocations w.instances allocations s.info
      execution ← get_tasks_execution
      begin_tasks w execution true)

  unfoldable pub report_minions_allocation_error : M Unit
  unfolding run_cancel set_tasks_execution_status
  report_minions_allocation_error = do
    s ← get
    if not (is_awaiting s.last_execution_status) then raise (invalid_state kind) else (do
      run_cancel w s.execution true false
      set_tasks_execution_status w s.execution ExecutionStatus.error_allocating_minions)
