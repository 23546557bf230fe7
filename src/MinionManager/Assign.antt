-- ===== src/MinionManager/Assign.antt =====
-- minion_manager/rpc/server.py, `_run_machine_allocation_subflow_for_action`: the machines of all
-- pools that an action uses, chosen and written pool by pool. The flows of tasks, which run later,
-- are left out, as are the endpoints that are read for them. An error keeps what was written.
use cloudshift.Prelude.{
  ℕ, ◌+◌, Bool, true, false, ◌&&◌, Option, none, some, List, [], ◌∷◌, map, length, filter, ◌==◌,
  if◌then◌else◌, Dict, lookup, insert,
}
use cloudshift.Prelude.Results.{Fallible, done, raised, ◌>>=◌, ensure}
use cloudshift.MinionManager.Pools.{Pool}
use cloudshift.MinionManager.Allocation.{
  AllocationError, Choice, Outcome, chosen, refused, allocate_machines,
}
use cloudshift.MinionManager.Writes.{Database, record_choice}
use cloudshift.MinionManager.Refresh.{is_allocated}
use cloudshift.MinionManager.Checks.{Action, get_pool, with_instance}

-- The machines of one instance, an entry of `instance_machine_allocations`.
pub record Minions : Type 0 where
  pub origin_minion_id : Option ℕ
  pub destination_minion_id : Option ℕ
  pub osmorphing_minion_id : Option ℕ

pub record Flow : Type 0 where
  pub database : Database
  pub made : ℕ
  pub minions : Dict Minions

abbrev pub with_minions : Flow → Dict Minions → Flow
with_minions flow minions = record flow { minions = minions }

-- An error, with the database as it is then.
abbrev pub Stopped : Type 0
Stopped = AllocationError × Database

abbrev pub Running : Type 0 → Type 0
Running A = Fallible Stopped A

abbrev pub stop_at : {A : Type 0} → Database → Fallible AllocationError A → Running A
stop_at db (done a) = done a
stop_at db (raised e) = raised (e, db)

pub data Role : Type 0 where
  origin destination osmorphing : Role

abbrev pub give : Role → ℕ → Minions → Minions
give Role.origin id m = record m { origin_minion_id = some id }
give Role.destination id m = record m { destination_minion_id = some id }
give Role.osmorphing id m = record m { osmorphing_minion_id = some id }

-- One assignment to an entry; an instance that the action does not have is a KeyError.
abbrev pub give_entry :
    Role
    → (machine_id instance : ℕ) → Option Minions
    → Dict Minions
    → Fallible AllocationError (Dict Minions)
give_entry role id i none minions = raised AllocationError.key_error
give_entry role id i (some m) minions = done (insert i (give role id m) minions)

-- The loop over the allocations of a pool, which are the newest first.
unfoldable pub register :
    Role → (allocations : List (ℕ × ℕ)) → Dict Minions → Fallible AllocationError (Dict Minions)
unfolding lookup insert
register role [] minions = done minions
register role ((i, id) ∷ allocations) minions =
    register role allocations minions >>= λ earlier. give_entry role id i (lookup i earlier) earlier

abbrev pub minion_or_error : Option ℕ → Fallible AllocationError ℕ
minion_or_error none = raised AllocationError.key_error
minion_or_error (some id) = done id

abbrev pub destination_of : Option Minions → Fallible AllocationError ℕ
destination_of none = raised AllocationError.key_error
destination_of (some m) = minion_or_error m.destination_minion_id

-- The machines of the destination are used for the OS morphing too.
unfoldable pub reuse_destination :
    (instances : List ℕ) → Dict Minions → Fallible AllocationError (Dict Minions)
unfolding lookup insert
reuse_destination [] minions = done minions
reuse_destination (i ∷ instances) minions = do
  id ← destination_of (lookup i minions)
  next ← give_entry Role.osmorphing id i (lookup i minions) minions
  reuse_destination instances next

abbrev pub with_machines : Pool → Database → Pool
with_machines pool db = record pool { machines = filter (λ m. m.pool_id == pool.id) db.machines }

unfoldable pub group_mappings : (mappings : Dict ℕ) → Dict (List ℕ) → Dict (List ℕ)
unfolding lookup insert
group_mappings [] groups = groups
group_mappings ((instance_id, pool_id) ∷ mappings) groups =
    group_mappings mappings
      (insert pool_id (with_instance (lookup pool_id groups) instance_id) groups)

abbrev pub is_some_id : Option ℕ → ℕ → Bool
is_some_id none id = false
is_some_id (some other) id = id == other

-- `instance_machine_allocations`, at first.
abbrev pub no_minions : (instances : List ℕ) → Dict Minions
no_minions instances =
    map
      (λ i. (
        i,
        record {
          origin_minion_id = none;
          destination_minion_id = none;
          osmorphing_minion_id = none;
        },
      ))
      instances

module _ (succeeds : ℕ → Bool) (uuid : ℕ → ℕ) (now : ℕ) (pools : List Pool) where
  abbrev pub written : Choice → Bool × Database → Flow → Running (List (ℕ × ℕ) × Flow)
  written c (true, db) flow =
      done (c.allocations, record flow { database = db; made = flow.made + length c.new_machines })
  written c (false, db) flow = raised (AllocationError.database_error, db)

  abbrev pub write : (action pool_id : ℕ) → Outcome → Flow → Running (List (ℕ × ℕ) × Flow)
  write action pool_id (refused e) flow = raised (e, flow.database)
  write action pool_id (chosen c) flow =
      written c
        (record_choice succeeds now pool_id action (map (λ entry. entry.0) c.existing)
          c.new_machines flow.database)
        flow

  -- One pool: it is read with its machines, has to be allocated, and the machines are chosen and
  -- written.
  unfoldable pub allocate_from :
      (action pool_id : ℕ) (instances : List ℕ) → Flow → Running (List (ℕ × ℕ) × Flow)
  allocate_from action pool_id instances flow = do
    pool ← stop_at flow.database (get_pool pool_id pools)
    _ ←
        stop_at flow.database
          (ensure (is_allocated pool.status) AllocationError.invalid_minion_pool_state)
    write action pool_id
        (allocate_machines (λ n. uuid (flow.made + n)) (with_machines pool flow.database) instances)
        flow

  -- The machines of a pool, registered for the instances.
  unfoldable pub allocate_role :
      Role → (action pool_id : ℕ) (instances : List ℕ) → Flow → Running Flow
  unfolding allocate_from register
  allocate_role role action pool_id instances flow = do
    result ← allocate_from action pool_id instances flow
    minions ← stop_at result.1.database (register role result.0 result.1.minions)
    done (with_minions result.1 minions)

  abbrev pub allocate_selected :
      Role → (included : Bool) (action : ℕ) → Option ℕ → (instances : List ℕ) → Flow → Running Flow
  allocate_selected role included action none instances flow = done flow
  allocate_selected role included action (some pool_id) instances flow =
      if included then allocate_role role action pool_id instances flow else done flow

  -- One pool of the OS morphing; that of the destination, where its machines are allocated, gives
  -- the machines that it gave before.
  unfoldable pub allocate_group :
      (include_transfer_minions : Bool) (action : ℕ) (destination_pool : Option ℕ) (pool_id : ℕ)
      (instances : List ℕ)
      → Flow
      → Running Flow
  unfolding allocate_role reuse_destination
  allocate_group transfer action destination_pool pool_id instances flow =
      let reused = stop_at flow.database (reuse_destination instances flow.minions) >>= λ minions.
      done (with_minions flow minions) in
      let allocated = allocate_role Role.osmorphing action pool_id instances flow in
      if is_some_id destination_pool pool_id && transfer then reused else allocated

  unfoldable pub allocate_groups :
      (include_transfer_minions : Bool) (action : ℕ) (destination_pool : Option ℕ)
      → Dict (List ℕ)
      → Flow
      → Running Flow
  unfolding allocate_group
  allocate_groups transfer action destination_pool [] flow = done flow
  allocate_groups transfer action destination_pool ((pool_id, instances) ∷ groups) flow =
      allocate_group transfer action destination_pool pool_id instances flow >>= λ next.
      allocate_groups transfer action destination_pool groups next

  abbrev pub allocate_osmorphing :
      (include_transfer_minions include_osmorphing_minions : Bool) → Action → Flow → Running Flow
  allocate_osmorphing transfer included action flow =
      let groups = group_mappings action.instance_osmorphing_minion_pool_mappings [] in
      if included
      then allocate_groups transfer action.id action.destination_minion_pool_id groups flow
      else done flow

  -- `_run_machine_allocation_subflow_for_action`
  unfoldable pub run_machine_allocation :
      (include_transfer_minions include_osmorphing_minions : Bool)
      → Action
      → Database
      → Running Flow
  unfolding allocate_groups group_mappings
  run_machine_allocation transfer included action db = do
    first ←
        allocate_selected Role.origin transfer action.id action.origin_minion_pool_id
          action.instances
          (record { database = db; made = 0; minions = no_minions action.instances })
    second ←
        allocate_selected Role.destination transfer action.id action.destination_minion_pool_id
          action.instances first
    allocate_osmorphing transfer included action second
