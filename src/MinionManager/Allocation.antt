-- ===== src/MinionManager/Allocation.antt =====
-- minion_manager/rpc/server.py, `_make_minion_machine_allocation_subflow_for_action`: which machine
-- of a pool each instance of an action gets.
use cloudshift.Prelude.{
  ℕ, ◌+◌, Bool, not, Option, none, some, List, [], ◌∷◌, map, length, filter, contains, leb,
  if◌then◌else◌,
}
use cloudshift.MinionManager.Pools.{Machine, Pool, is_available}

-- InvalidMinionPoolState, InvalidInput for an instance that is passed twice, NotFound for a pool,
-- InvalidMinionPoolSelection, a KeyError of Python, and an error of the database
pub data AllocationError : Type 0 where
  invalid_minion_pool_state invalid_input not_found invalid_minion_pool_selection : AllocationError
  key_error database_error : AllocationError

-- What has been decided so far: the machine of each instance, the machines of the pool that are
-- used, each with its instance, and the machines to be made; the newest first.
pub record Choice : Type 0 where
  pub allocations : List (ℕ × ℕ)
  pub existing : List (ℕ × ℕ)
  pub new_machines : List ℕ

pub data Outcome : Type 0 where
  chosen : Choice → Outcome
  refused : AllocationError → Outcome

abbrev pub available_machines : List Machine → List Machine
available_machines machines = filter (λ m. is_available m.allocation_status) machines

-- `_select_machine`: the first machine of the pool that is available and not excluded.
unfoldable pub select_machine : (exclude : List ℕ) → List Machine → Option Machine
select_machine exclude [] = none
select_machine exclude (m ∷ machines) =
    let rest = select_machine exclude machines in
    if contains m.id exclude
    then rest
    else (if not (is_available m.allocation_status) then rest else some m)

abbrev pub machine_ids : Choice → List ℕ
machine_ids c = map (λ entry. entry.1) c.allocations

abbrev pub instances_of : Choice → List ℕ
instances_of c = map (λ entry. entry.0) c.allocations

-- `uuid n` is the identifier of the machine that is made after n others.
abbrev pub choose : (uuid : ℕ → ℕ) (instance_name : ℕ) → Option Machine → Choice → Choice
choose uuid i (some m) c = record c {
  allocations = (i, m.id) ∷ c.allocations;
  existing = (m.id, i) ∷ c.existing;
}
choose uuid i none c = record c {
  allocations = (i, uuid (length c.new_machines)) ∷ c.allocations;
  new_machines = uuid (length c.new_machines) ∷ c.new_machines;
}

-- The loop over the instances.
unfoldable pub choose_all : (uuid : ℕ → ℕ) → List Machine → (instances : List ℕ) → Choice → Outcome
unfolding select_machine
choose_all uuid machines [] c = chosen c
choose_all uuid machines (i ∷ is) c =
    let rest =
      choose_all uuid machines is (choose uuid i (select_machine (machine_ids c) machines) c) in
    if contains i (instances_of c) then refused AllocationError.invalid_input else rest

-- The pool has room for all instances, counting the machines that it may still make; where a pool
-- has more machines than its maximum, their difference is negative in the source.
abbrev pub has_room : Pool → (instances : List ℕ) → Bool
has_room pool instances =
    leb (length instances + length pool.machines)
      (length (available_machines pool.machines) + pool.maximum_minions)

unfoldable pub allocate_machines : (uuid : ℕ → ℕ) → Pool → (instances : List ℕ) → Outcome
unfolding choose_all
allocate_machines uuid pool instances =
    let c =
      choose_all uuid pool.machines instances
        (record { allocations = []; existing = []; new_machines = [] }) in
    if has_room pool instances then c else refused AllocationError.invalid_minion_pool_state
