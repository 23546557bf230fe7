-- ===== src/MinionManager/Release.antt =====
-- minion_manager/rpc/server.py, `deallocate_minion_machines_for_action`: the machines that an action
-- gives back. The database carries out its operations; a machine that it misses is a NotFound.
use cloudshift.Prelude.{
  ℕ, Bool, true, false, Option, none, some, List, [], ◌∷◌, ◌++◌, filter, is_empty, if◌then◌else◌,
  Dict, lookup, insert,
}
use cloudshift.MinionManager.Pools.{Machine, MachineStatus}
use cloudshift.MinionManager.Writes.{made_available, set_statuses, delete_machine}
use cloudshift.MinionManager.Assign.{is_some_id}

abbrev pub is_uninitialized : MachineStatus → Bool
is_uninitialized MachineStatus.uninitialized = true
is_uninitialized _ = false

-- The rows that `get_minion_machines` finds for the action.
abbrev pub is_allocated_to : (action : ℕ) → Machine → Bool
is_allocated_to action m = is_some_id m.allocated_action action

abbrev pub with_machine : Option (List Machine) → Machine → List Machine
with_machine none m = m ∷ []
with_machine (some machines) m = machines ++ m ∷ []

unfoldable pub group_machines : List Machine → Dict (List Machine) → Dict (List Machine)
unfolding lookup insert
group_machines [] groups = groups
group_machines (m ∷ machines) groups =
    group_machines machines (insert m.pool_id (with_machine (lookup m.pool_id groups) m) groups)

abbrev pub or_not_found :
    Option (List Machine) → (List Machine → Option (List Machine)) → Option (List Machine)
or_not_found none next = none
or_not_found (some rows) next = next rows

-- The machines of one pool: those that were never made are deleted at once, the others are noted,
-- and become available in the end.
unfoldable pub release_pool :
    List Machine → (noted : List ℕ) → (rows : List Machine) → Option (List Machine)
release_pool [] noted rows = set_statuses noted made_available rows
release_pool (m ∷ machines) noted rows =
    let gone = is_uninitialized m.allocation_status in
    or_not_found (if gone then delete_machine m.id rows else some rows)
      (release_pool machines (if gone then noted else noted ++ m.id ∷ []))

unfoldable pub release_pools : Dict (List Machine) → (rows : List Machine) → Option (List Machine)
unfolding release_pool
release_pools [] rows = some rows
release_pools ((pool_id, machines) ∷ groups) rows =
    or_not_found (release_pool machines [] rows) (release_pools groups)

unfoldable pub deallocate_minion_machines_for_action :
    (action : ℕ) → (rows : List Machine) → Option (List Machine)
unfolding release_pools group_machines
deallocate_minion_machines_for_action action rows =
    let allocated = filter (is_allocated_to action) rows in
    if is_empty allocated then some rows else release_pools (group_machines allocated []) rows
