-- ===== src/MinionManager/Checks.antt =====
-- minion_manager/rpc/server.py, `validate_minion_pool_selections_for_action`: the pools that an
-- action selects. An action always has the properties that `_check_keys_for_action_dict` asks for.
use cloudshift.Prelude.{
  ℕ, Option, none, some, List, [], ◌∷◌, ◌++◌, length, contains, ◌==◌, leb, if◌then◌else◌, Dict,
  lookup, insert,
}
use cloudshift.Prelude.Results.{Fallible, done, raised, ◌>>=◌, ensure}
use cloudshift.MinionManager.Pools.{Pool}
use cloudshift.MinionManager.Allocation.{AllocationError}
use cloudshift.MinionManager.Refresh.{is_allocated}

pub record Action : Type 0 where
  pub id : ℕ
  pub instances : List ℕ
  pub origin_endpoint_id : ℕ
  pub destination_endpoint_id : ℕ
  pub origin_minion_pool_id : Option ℕ
  pub destination_minion_pool_id : Option ℕ
  pub instance_osmorphing_minion_pool_mappings : Dict ℕ

abbrev pub Attempt : Type 0 → Type 0
Attempt A = Fallible AllocationError A

-- PROVIDER_PLATFORM_SOURCE, PROVIDER_PLATFORM_DESTINATION and OS_TYPE_LINUX
abbrev pub provider_platform_source : ℕ
provider_platform_source = 0

abbrev pub provider_platform_destination : ℕ
provider_platform_destination = 1

abbrev pub os_type_linux : ℕ
os_type_linux = 0

unfoldable pub get_pool : (pool_id : ℕ) → List Pool → Attempt Pool
get_pool pool_id [] = raised AllocationError.not_found
get_pool pool_id (pool ∷ pools) =
    let rest = get_pool pool_id pools in if pool.id == pool_id then done pool else rest

unfoldable pub check_pool_minion_count : Pool → (desired_minion_count : ℕ) → Attempt Unit
check_pool_minion_count pool count = do
  _ ← ensure (is_allocated pool.status) AllocationError.invalid_minion_pool_state
  ensure (leb count pool.maximum_minions) AllocationError.invalid_minion_pool_selection

-- A pool of the source or of the destination.
unfoldable pub check_transfer_pool :
    List Pool → (endpoint_id platform : ℕ) (instances : List ℕ) → Option ℕ → Attempt Unit
unfolding check_pool_minion_count
check_transfer_pool pools endpoint platform instances none = done tt
check_transfer_pool pools endpoint platform instances (some pool_id) = do
  pool ← get_pool pool_id pools
  _ ← ensure (pool.endpoint_id == endpoint) AllocationError.invalid_minion_pool_selection
  _ ← ensure (pool.platform == platform) AllocationError.invalid_minion_pool_selection
  _ ← ensure (pool.os_type == os_type_linux) AllocationError.invalid_minion_pool_selection
  check_pool_minion_count pool (length instances)

unfoldable pub check_osmorphing_pool :
    List Pool → (endpoint_id : ℕ) (pool_id : ℕ) (instances : List ℕ) → Attempt Unit
unfolding check_pool_minion_count
check_osmorphing_pool pools endpoint pool_id instances = do
  pool ← get_pool pool_id pools
  _ ← ensure (pool.endpoint_id == endpoint) AllocationError.invalid_minion_pool_selection
  _ ←
      ensure (pool.platform == provider_platform_destination)
        AllocationError.invalid_minion_pool_selection
  check_pool_minion_count pool (length instances)

abbrev pub with_instance : Option (List ℕ) → ℕ → List ℕ
with_instance none instance_id = instance_id ∷ []
with_instance (some instances) instance_id = instances ++ instance_id ∷ []

-- The instances of each pool; what is mapped for no instance of the action is ignored.
unfoldable pub group_by_pool :
    (instances : List ℕ) (mappings : Dict ℕ) → Dict (List ℕ) → Dict (List ℕ)
unfolding lookup insert
group_by_pool instances [] groups = groups
group_by_pool instances ((instance_id, pool_id) ∷ mappings) groups =
    group_by_pool instances mappings (
      if contains instance_id instances
      then insert pool_id (with_instance (lookup pool_id groups) instance_id) groups
      else groups)

unfoldable pub check_osmorphing_pools : List Pool → (endpoint_id : ℕ) → Dict (List ℕ) → Attempt Unit
unfolding check_osmorphing_pool
check_osmorphing_pools pools endpoint [] = done tt
check_osmorphing_pools pools endpoint ((pool_id, instances) ∷ groups) =
    let rest = check_osmorphing_pools pools endpoint groups in
    check_osmorphing_pool pools endpoint pool_id instances >>= λ _. rest

unfoldable pub validate_minion_pool_selections_for_action : List Pool → Action → Attempt Unit
unfolding check_transfer_pool check_osmorphing_pools group_by_pool
validate_minion_pool_selections_for_action pools action = do
  _ ←
      check_transfer_pool pools action.origin_endpoint_id provider_platform_source action.instances
        action.origin_minion_pool_id
  _ ←
      check_transfer_pool pools action.destination_endpoint_id provider_platform_destination
        action.instances action.destination_minion_pool_id
  check_osmorphing_pools pools action.destination_endpoint_id
      (group_by_pool action.instances action.instance_osmorphing_minion_pool_mappings [])
