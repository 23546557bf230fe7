-- ===== src/MinionManager/Cases.antt =====
-- The choice of machines at a small pool.
use cloudshift.Prelude.{
  ℕ, ◌+◌, ◌≤◌, ◌≡◌, refl, sym, subst, Bool, true, false, not, some, none, lookup, insert, List, [],
  ◌∷◌, ◌++◌, map, ◌==◌, arith, ◌⊎◌,
}
use cloudshift.Prelude.Results.{done, raised}
use cloudshift.MinionManager.Pools.{
  Machine, Pool, MachineStatus, PoolStatus, PowerStatus, RetentionStrategy,
}
use cloudshift.MinionManager.Allocation.{
  AllocationError, Choice, chosen, choose_all, select_machine, allocate_machines,
}
use cloudshift.MinionManager.Refresh.{
  counted_machines, refresh_minion_pool, plan_machines, refresh_step,
}
use cloudshift.MinionManager.Minimum.{counted_machines-refresh_minion_pool}
use cloudshift.MinionManager.Checks.{
  Action, validate_minion_pool_selections_for_action, get_pool, check_transfer_pool,
  check_pool_minion_count, check_osmorphing_pool, check_osmorphing_pools, group_by_pool,
}
use cloudshift.MinionManager.Selected.{AllSuit, validate_minion_pool_selections_for_action-AllSuit}
use cloudshift.MinionManager.Idle.{allocate_machines-validate}
use cloudshift.MinionManager.Assign.{
  Flow, Role, run_machine_allocation, allocate_from, allocate_role, allocate_group, allocate_groups,
  group_mappings, register, reuse_destination,
}
use cloudshift.MinionManager.Provided.{Served, Morphed, run_machine_allocation-Served}
use cloudshift.MinionManager.Release.{deallocate_minion_machines_for_action}
use cloudshift.MinionManager.Returned.{returned, deallocate_minion_machines_for_action-returned}
use cloudshift.MinionManager.Recovery.{failed, allocate_minion_machines}
use cloudshift.MinionManager.Recovered.{allocate_minion_machines-returned}
use cloudshift.MinionManager.Writes.{
  Database, new_machine, write_choice, add_new, add_machines, record_choice,
}
use cloudshift.MinionManager.Rows.{new_rows, untimed}
use cloudshift.MinionManager.Rollback.{reserve, record_choice-all_or_nothing}

abbrev machine : ℕ → MachineStatus → Machine
machine id status = record {
  id = id;
  pool_id = 1;
  allocation_status = status;
  allocated_action = none;
  power_status = PowerStatus.powered_on;
  last_used_at = none;
}

abbrev pool : Pool
pool = record {
  id = 1;
  endpoint_id = 2;
  platform = 0;
  os_type = 0;
  status = PoolStatus.allocated;
  minimum_minions = 1;
  maximum_minions = 3;
  minion_max_idle_time = 60;
  minion_retention_strategy = RetentionStrategy.delete;
  machines = machine 1 MachineStatus.in_use ∷ machine 2 MachineStatus.available ∷ [];
}

abbrev instances : List ℕ
instances = 7 ∷ 8 ∷ []

-- The first instance gets the machine that is available, and one is made for the second.
abbrev choice : Choice
choice = record {
  allocations = (8, 10) ∷ (7, 2) ∷ [];
  existing = (2, 7) ∷ [];
  new_machines = 10 ∷ [];
}

abbrev from_ten : ℕ → ℕ
from_ten n = n + 10

abbrev database : Database
database = record { machines = pool.machines; operations = 0 }

-- The second of the new machines cannot be added.
abbrev all_but_the_fourth : ℕ → Bool
all_but_the_fourth n = not (n == 3)

operations_tried :
    (write_choice all_but_the_fourth 100 1 5 (2 ∷ []) (11 ∷ 10 ∷ []) database).database.operations
    ≡ 4
unfolding write_choice add_new add_machines
operations_tried = refl

record_choice-all_or_nothing_example :
    (((record_choice all_but_the_fourth 100 1 5 (2 ∷ []) (11 ∷ 10 ∷ []) database).0 ≡ true)
      × ((record_choice all_but_the_fourth 100 1 5 (2 ∷ []) (11 ∷ 10 ∷ []) database).1.machines
          ≡ map (reserve 100 5 (2 ∷ [])) pool.machines ++ new_rows 1 5 (11 ∷ 10 ∷ [])))
    ⊎ (((record_choice all_but_the_fourth 100 1 5 (2 ∷ []) (11 ∷ 10 ∷ []) database).0 ≡ false)
        × (map untimed
              (record_choice all_but_the_fourth 100 1 5 (2 ∷ []) (11 ∷ 10 ∷ []) database).1.machines
            ≡ map untimed pool.machines))
record_choice-all_or_nothing_example =
    record_choice-all_or_nothing all_but_the_fourth 100 1 5 (2 ∷ []) (11 ∷ 10 ∷ []) database
      ((λ e. ground (arith, e)), ((λ e. (refl, refl)), tt)) (λ x e. ground (arith, e))
      (λ k le.
        subst (λ n. n ≤ k → all_but_the_fourth k ≡ true) (sym operations_tried)
          (λ le. ground (arith, le)) le)

-- Both machines that are available are idle, and one of them is taken down.
abbrev idle_machines : List Machine
idle_machines =
    machine 1 MachineStatus.available
    ∷ machine 2 MachineStatus.available
    ∷ machine 3 MachineStatus.error
    ∷ []

abbrev idle_pool : Pool
idle_pool = record pool { machines = idle_machines }

abbrev after_refresh : List Machine
after_refresh =
    machine 1 MachineStatus.deallocating
    ∷ machine 2 MachineStatus.healthchecking
    ∷ machine 3 MachineStatus.healthchecking
    ∷ []

refreshed_machines : refresh_minion_pool 100 idle_pool ≡ done after_refresh
unfolding refresh_minion_pool plan_machines refresh_step
refreshed_machines = refl

counted_machines-refresh_minion_pool_example : 1 ≤ counted_machines after_refresh
counted_machines-refresh_minion_pool_example =
    counted_machines-refresh_minion_pool 100 idle_pool after_refresh 1
      ((refl, (refl, tt)), ((refl, tt), (tt, tt))) refreshed_machines (omega arith) (omega arith)

abbrev source_pool : Pool
source_pool = record pool { machines = machine 1 MachineStatus.available ∷ [] }

abbrev target_pool : Pool
target_pool = record pool { id = 4; endpoint_id = 3; platform = 1 }

abbrev pools : List Pool
pools = source_pool ∷ target_pool ∷ []

abbrev action : Action
action = record {
  id = 5;
  instances = 7 ∷ 8 ∷ [];
  origin_endpoint_id = 2;
  destination_endpoint_id = 3;
  origin_minion_pool_id = some 1;
  destination_minion_pool_id = none;
  instance_osmorphing_minion_pool_mappings = (7, 4) ∷ (9, 6) ∷ (8, 4) ∷ [];
}

validated : validate_minion_pool_selections_for_action pools action ≡ done tt
unfolding validate_minion_pool_selections_for_action get_pool check_transfer_pool
    check_pool_minion_count check_osmorphing_pool check_osmorphing_pools group_by_pool lookup insert
validated = refl

validate_minion_pool_selections_for_action-AllSuit_example : AllSuit pools action
validate_minion_pool_selections_for_action-AllSuit_example =
    validate_minion_pool_selections_for_action-AllSuit pools action validated

source_found : get_pool 1 pools ≡ done source_pool
unfolding get_pool
source_found = refl

allocate_machines-validate_example :
    (c : Choice) × (allocate_machines from_ten source_pool action.instances ≡ chosen c)
allocate_machines-validate_example =
    allocate_machines-validate from_ten pools action 1 source_pool validated refl source_found
      (refl, tt) ((refl, tt), (tt, tt))

-- An action of one instance, with a pool of the source and one of the destination, which is used
-- for the OS morphing too.
abbrev small_action : Action
small_action = record action {
  instances = 7 ∷ [];
  destination_minion_pool_id = some 4;
  instance_osmorphing_minion_pool_mappings = (7, 4) ∷ [];
}

abbrev always : ℕ → Bool
always n = true

abbrev start : Database
start = record { machines = machine 1 MachineStatus.available ∷ []; operations = 0 }

abbrev reserved_machine : Machine
reserved_machine = record {
  id = 1;
  pool_id = 1;
  allocation_status = MachineStatus.reserved;
  allocated_action = some 5;
  power_status = PowerStatus.powered_on;
  last_used_at = some 100;
}

abbrev flow : Flow
flow = record {
  database = record { machines = reserved_machine ∷ new_machine 4 5 10 ∷ []; operations = 4 };
  made = 1;
  minions =
      (
        7,
        record {
          origin_minion_id = some 1;
          destination_minion_id = some 10;
          osmorphing_minion_id = some 10;
        },
      )
      ∷ [];
}

allocated :
    run_machine_allocation always from_ten 100 pools true true small_action start ≡ done flow
unfolding run_machine_allocation allocate_from allocate_role allocate_group allocate_groups
    group_mappings register reuse_destination get_pool allocate_machines choose_all select_machine
    record_choice write_choice add_new add_machines lookup insert
allocated = refl

run_machine_allocation-Served_example :
    Served Role.origin true (some 1) small_action flow
    × Served Role.destination true (some 4) small_action flow
    × Morphed true small_action flow
run_machine_allocation-Served_example =
    run_machine_allocation-Served always from_ten 100 pools true true small_action start flow
      allocated

-- An instance that the action does not have: the selections are valid, the allocation is not.
abbrev stray_action : Action
stray_action = record small_action {
  instance_osmorphing_minion_pool_mappings = (7, 4) ∷ (9, 4) ∷ [];
}

stray_validated : validate_minion_pool_selections_for_action pools stray_action ≡ done tt
unfolding validate_minion_pool_selections_for_action get_pool check_transfer_pool
    check_pool_minion_count check_osmorphing_pool check_osmorphing_pools group_by_pool lookup insert
stray_validated = refl

stray_key_error :
    run_machine_allocation always from_ten 100 pools true true stray_action start
    ≡ raised (AllocationError.key_error, flow.database)
unfolding run_machine_allocation allocate_from allocate_role allocate_group allocate_groups
    group_mappings register reuse_destination get_pool allocate_machines choose_all select_machine
    record_choice write_choice add_new add_machines lookup insert
stray_key_error = refl

abbrev used_machine : (id action : ℕ) → MachineStatus → Machine
used_machine id action status = record (machine id status) { allocated_action = some action }

-- Of the machines of action 5, one is of another pool, and was never made.
abbrev used_rows : List Machine
used_rows =
    used_machine 1 5 MachineStatus.in_use
    ∷ record (used_machine 2 5 MachineStatus.uninitialized) { pool_id = 4 }
    ∷ used_machine 3 6 MachineStatus.in_use
    ∷ []

deallocate_minion_machines_for_action-returned_example :
    deallocate_minion_machines_for_action 5 used_rows ≡ some (returned 5 used_rows)
deallocate_minion_machines_for_action-returned_example =
    deallocate_minion_machines_for_action-returned 5 used_rows
      ((refl, (refl, tt)), ((refl, tt), (tt, tt)))

what_is_left :
    returned 5 used_rows
    ≡ machine 1 MachineStatus.available ∷ used_machine 3 6 MachineStatus.in_use ∷ []
what_is_left = refl

allocate_minion_machines-returned_example :
    allocate_minion_machines always from_ten 100 pools true true stray_action start
    ≡ failed AllocationError.key_error (some (returned 5 flow.database.machines))
allocate_minion_machines-returned_example =
    allocate_minion_machines-returned always from_ten 100 pools true true stray_action start
      flow.database AllocationError.key_error stray_key_error ((refl, tt), (tt, tt))
