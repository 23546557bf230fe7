-- ===== src/MinionManager/Recovery.antt =====
-- minion_manager/rpc/server.py, `_cleanup_machines_with_statuses_for_action`, and what
-- `allocate_minion_machines_for_transfer` and its kin for deployments do after an error: the machines
-- that the action has got so far are given back. The report to the conductor is left out.
use cloudshift.Prelude.{ℕ, Bool, Option, some, List, [], ◌∷◌, filter, is_empty, if◌then◌else◌, Dict}
use cloudshift.Prelude.Results.{done, raised}
use cloudshift.MinionManager.Pools.{Machine, Pool, MachineStatus}
use cloudshift.MinionManager.Allocation.{AllocationError}
use cloudshift.MinionManager.Writes.{Database, delete_machine}
use cloudshift.MinionManager.Checks.{Action}
use cloudshift.MinionManager.Assign.{Flow, Running, run_machine_allocation}
use cloudshift.MinionManager.Release.{
  is_uninitialized, is_allocated_to, group_machines, or_not_found,
  deallocate_minion_machines_for_action,
}

-- The machines of one pool.
unfoldable pub delete_each : List Machine → (rows : List Machine) → Option (List Machine)
delete_each [] rows = some rows
delete_each (m ∷ machines) rows = or_not_found (delete_machine m.id rows) (delete_each machines)

unfoldable pub delete_groups : Dict (List Machine) → (rows : List Machine) → Option (List Machine)
unfolding delete_each
delete_groups [] rows = some rows
delete_groups ((pool_id, machines) ∷ groups) rows =
    or_not_found (delete_each machines rows) (delete_groups groups)

-- The machines of the action in one of the statuses; no pool is excluded.
unfoldable pub cleanup_machines :
    (targeted : MachineStatus → Bool) (action : ℕ) → (rows : List Machine) → Option (List Machine)
unfolding delete_groups group_machines
cleanup_machines targeted action rows =
    let machines = filter (is_allocated_to action) rows in
    if is_empty machines
    then some rows
    else delete_groups (group_machines (filter (λ m. targeted m.allocation_status) machines) [])
        rows

-- The handler of the exception.
unfoldable pub recover : (action : ℕ) → (rows : List Machine) → Option (List Machine)
unfolding cleanup_machines
recover action rows =
    or_not_found (cleanup_machines is_uninitialized action rows)
      (deallocate_minion_machines_for_action action)

-- How an allocation ends: with the machines of the instances, or with an error and the rows that
-- are left, unless the handler itself fails.
pub data Ending : Type 0 where
  allocated : Flow → Ending
  failed : AllocationError → Option (List Machine) → Ending

abbrev pub ending : (action : ℕ) → Running Flow → Ending
ending action (done flow) = allocated flow
ending action (raised (e, db)) = failed e (recover action db.machines)

-- `allocate_minion_machines_for_transfer` and `allocate_minion_machines_for_deployment`, which
-- differ in what they include.
unfoldable pub allocate_minion_machines :
    (succeeds : ℕ → Bool) (uuid : ℕ → ℕ) (now : ℕ) (pools : List Pool)
    (include_transfer_minions include_osmorphing_minions : Bool)
    → Action
    → Database
    → Ending
unfolding recover run_machine_allocation
allocate_minion_machines succeeds uuid now pools transfer included action db =
    ending action.id (run_machine_allocation succeeds uuid now pools transfer included action db)
