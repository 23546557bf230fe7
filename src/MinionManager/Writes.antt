-- ===== src/MinionManager/Writes.antt =====
-- minion_manager/rpc/server.py, the end of `_make_minion_machine_allocation_subflow_for_action`: the
-- choice of machines is written to the database, and undone where an operation fails; with the
-- operations of db/api.py on the rows of machines. Lists of machines are the newest first, as in a
-- Choice, and are worked off from their end. The texts of events are left
-- out.
use cloudshift.Prelude.{
  ℕ, suc, Bool, true, false, not, Option, none, some, List, [], ◌∷◌, ◌++◌, map, all, filter,
  is_empty, contains, ◌==◌, if◌then◌else◌,
}
use cloudshift.MinionManager.Pools.{Machine, MachineStatus, PowerStatus}
use cloudshift.MinionManager.Capacity.{ids}

-- The rows of machines, and how many operations the database has been asked for.
pub record Database : Type 0 where
  pub machines : List Machine
  pub operations : ℕ

-- The moment of use, unless it is refreshed.
abbrev pub used_at : (refresh : Option ℕ) (last_used_at : Option ℕ) → Option ℕ
used_at none last_used_at = last_used_at
used_at (some now) last_used_at = some now

-- The new values of a row: the action, the status and, where it is refreshed, the moment of use.
pub record Marks : Type 0 where
  pub action : Option ℕ
  pub status : MachineStatus
  pub refresh : Option ℕ

abbrev pub give_status : (machine_ids : List ℕ) → Marks → Machine → Machine
give_status machine_ids marks m =
    if contains m.id machine_ids
    then record m {
      allocation_status = marks.status;
      allocated_action = marks.action;
      last_used_at = used_at marks.refresh m.last_used_at;
    }
    else m

abbrev pub reserved_for : (now action : ℕ) → Marks
reserved_for now action = record {
  action = some action;
  status = MachineStatus.reserved;
  refresh = some now;
}

abbrev pub made_available : Marks
made_available = record { action = none; status = MachineStatus.available; refresh = none }

-- `set_minion_machines_allocation_statuses`; NotFound where a machine is missing.
abbrev pub set_statuses : (machine_ids : List ℕ) → Marks → List Machine → Option (List Machine)
set_statuses machine_ids marks machines =
    if all (λ id. contains id (ids machines)) machine_ids
    then some (map (give_status machine_ids marks) machines)
    else none

abbrev pub new_machine : (pool_id action id : ℕ) → Machine
new_machine pool_id action id = record {
  id = id;
  pool_id = pool_id;
  allocation_status = MachineStatus.uninitialized;
  allocated_action = some action;
  power_status = PowerStatus.power_uninitialized;
  last_used_at = none;
}

-- `add_minion_machine`; the identifier is the key of the row.
abbrev pub add_machine : Machine → List Machine → Option (List Machine)
add_machine m machines = if contains m.id (ids machines) then none else some (machines ++ m ∷ [])

abbrev pub without : ℕ → List Machine → List Machine
without id machines = filter (λ m. not (m.id == id)) machines

-- `delete_minion_machine`; NotFound where no row was deleted.
abbrev pub delete_machine : ℕ → List Machine → Option (List Machine)
delete_machine id machines = if contains id (ids machines) then some (without id machines) else none

abbrev pub apply_operation : Option (List Machine) → Database → Bool × Database
apply_operation none db = (false, record db { operations = suc db.operations })
apply_operation (some machines) db =
    (true, record { machines = machines; operations = suc db.operations })

-- What has been written: whether every operation succeeded, and the rows that were added.
pub record Written : Type 0 where
  pub complete : Bool
  pub added : List ℕ
  pub database : Database

-- `succeeds n`: the database carries out the operation that it is asked for after n others. An
-- operation that fails leaves the rows as they are.
module _ (succeeds : ℕ → Bool) where
  abbrev pub run_operation :
      (operation : List Machine → Option (List Machine)) → Database → Bool × Database
  run_operation operation db =
      apply_operation (if succeeds db.operations then operation db.machines else none) db

  -- `_add_minion_pool_event`
  abbrev pub add_event : Database → Bool × Database
  add_event db = run_operation some db

  unfoldable pub delete_machines : List ℕ → Database → Database
  delete_machines [] db = db
  delete_machines (id ∷ added) db = (run_operation (delete_machine id) (delete_machines added db)).1

  -- The handler of the exception; its own operations may fail, and are then passed over.
  unfoldable pub undo : (existing added : List ℕ) → Database → Database
  unfolding delete_machines
  undo existing added db =
      delete_machines added (run_operation (set_statuses existing made_available) db).1

-- Machines of this pool are allocated to this action, now.
module _ (succeeds : ℕ → Bool) (now pool_id action : ℕ) where
  abbrev pub reserve_existing : (existing : List ℕ) → Database → Bool × Database
  reserve_existing existing db =
      let marked = run_operation succeeds (set_statuses existing (reserved_for now action)) db in
      if is_empty existing
      then (true, db)
      else (if marked.0 then add_event succeeds marked.1 else marked)

  unfoldable pub add_machines : (new : List ℕ) → Database → Written
  add_machines [] db = record { complete = true; added = []; database = db }
  add_machines (id ∷ new) db =
      let earlier = add_machines new db in
      let one =
        run_operation succeeds (add_machine (new_machine pool_id action id)) earlier.database in
      if not earlier.complete
      then earlier
      else (if one.0
          then record { complete = true; added = id ∷ earlier.added; database = one.1 }
          else record { complete = false; added = earlier.added; database = one.1 })

  unfoldable pub add_new : (new : List ℕ) → Database → Written
  unfolding add_machines
  add_new new db =
      let rows = add_machines new db in
      let event = add_event succeeds rows.database in
      if is_empty new
      then record { complete = true; added = []; database = db }
      else (if rows.complete
          then record { complete = event.0; added = rows.added; database = event.1 }
          else rows)

  -- The body of the `try`.
  unfoldable pub write_choice : (existing new : List ℕ) → Database → Written
  unfolding add_new
  write_choice existing new db =
      let reserved = reserve_existing existing db in
      if reserved.0
      then add_new new reserved.1
      else record { complete = false; added = []; database = reserved.1 }

  unfoldable pub record_choice : (existing new : List ℕ) → Database → Bool × Database
  unfolding write_choice undo
  record_choice existing new db =
      let written = write_choice existing new db in
      if written.complete
      then (true, written.database)
      else (false, undo succeeds existing written.added written.database)
