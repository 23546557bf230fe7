-- ===== src/MinionManager/Selected.antt =====
-- The pools of an action whose selections have been validated.
use cloudshift.Prelude.{
  ℕ, ◌≤◌, ◌≡◌, subst, true, Option, none, some, List, [], ◌∷◌, length, filter, contains, All, ◌==◌,
  leb, arith, Bool-cases, Option-cases, ==_iff, inl, inr, Dict, lookup,
}
use cloudshift.Prelude.Results.{done, done_bind, ensure_bind}
use cloudshift.MinionManager.Pools.{Pool}
use cloudshift.MinionManager.Refresh.{is_allocated}
use cloudshift.MinionManager.Groups.{mapped, length-grouped, All-lookup, All-weaken, each_mapped}
use cloudshift.MinionManager.Checks.{
  Action, provider_platform_source, provider_platform_destination, os_type_linux, get_pool,
  check_pool_minion_count, check_transfer_pool, check_osmorphing_pool, group_by_pool,
  check_osmorphing_pools, validate_minion_pool_selections_for_action,
}

-- The pool can be used there, by so many instances.
pub record Suits (pools : List Pool) (endpoint platform count pool_id : ℕ) : Type 0 where
  pub pool : Pool
  pub found : get_pool pool_id pools ≡ done pool
  pub same_endpoint : pool.endpoint_id ≡ endpoint
  pub same_platform : pool.platform ≡ platform
  pub allocated : is_allocated pool.status ≡ true
  pub has_maximum : count ≤ pool.maximum_minions

abbrev pub WhenSome : Option ℕ → (ℕ → Type 0) → Type 0
WhenSome none P = Unit
WhenSome (some x) P = P x

pub record AllSuit (pools : List Pool) (action : Action) : Type 0 where
  pub origin :
      WhenSome action.origin_minion_pool_id
        (Suits pools action.origin_endpoint_id provider_platform_source (length action.instances))
  pub destination : WhenSome action.destination_minion_pool_id (
      Suits pools action.destination_endpoint_id provider_platform_destination
        (length action.instances))
  pub osmorphing :
      All
        (λ entry.
          Suits pools action.destination_endpoint_id provider_platform_destination
            (mapped action.instances action.instance_osmorphing_minion_pool_mappings entry.1)
            entry.1)
        (filter
          (λ entry. contains entry.0 action.instances)
          action.instance_osmorphing_minion_pool_mappings)

check_pool_minion_count-done :
    (pool : Pool) (count : ℕ)
    → check_pool_minion_count pool count ≡ done tt
    → (is_allocated pool.status ≡ true) × (count ≤ pool.maximum_minions)
unfolding check_pool_minion_count
check_pool_minion_count-done pool count h =
    let status = ensure_bind (is_allocated pool.status) _ _ tt h in
    (
      status.0,
      elim (Bool-cases (leb count pool.maximum_minions)) [
        | inl e ↦ ground (arith, e)
        | inr e ↦ ground (arith, rw e at status.1)
      ],
    )

check_transfer_pool-done :
    (pools : List Pool) (endpoint platform : ℕ) (instances : List ℕ) (o : Option ℕ)
    → check_transfer_pool pools endpoint platform instances o ≡ done tt
    → WhenSome o (Suits pools endpoint platform (length instances))
unfolding check_transfer_pool
check_transfer_pool-done pools endpoint platform instances none h = tt
check_transfer_pool-done pools endpoint platform instances (some id) h =
    let (pool, found, h1) = done_bind (get_pool id pools) _ tt h in
    let (same, h2) = ensure_bind (pool.endpoint_id == endpoint) _ _ tt h1 in
    let (platforms, h3) = ensure_bind (pool.platform == platform) _ _ tt h2 in
    let (linux, h4) = ensure_bind (pool.os_type == os_type_linux) _ _ tt h3 in
    let counts = check_pool_minion_count-done pool (length instances) h4 in
    record {
      pool = pool;
      found = found;
      same_endpoint = (==_iff pool.endpoint_id endpoint).0 same;
      same_platform = (==_iff pool.platform platform).0 platforms;
      allocated = counts.0;
      has_maximum = counts.1;
    }

check_osmorphing_pools-done :
    (pools : List Pool) (endpoint : ℕ) (groups : Dict (List ℕ))
    → check_osmorphing_pools pools endpoint groups ≡ done tt
    → All (λ g. Suits pools endpoint provider_platform_destination (length g.1) g.0) groups
unfolding check_osmorphing_pools check_osmorphing_pool
check_osmorphing_pools-done pools endpoint [] h = tt
check_osmorphing_pools-done pools endpoint ((id, instances) ∷ groups) h =
    let (u, first, later) = done_bind (check_osmorphing_pool pools endpoint id instances) _ tt h in
    let (pool, found, h1) = done_bind (get_pool id pools) _ tt first in
    let (same, h2) = ensure_bind (pool.endpoint_id == endpoint) _ _ tt h1 in
    let (platforms, h3) = ensure_bind (pool.platform == provider_platform_destination) _ _ tt h2 in
    let counts = check_pool_minion_count-done pool (length instances) h3 in
    (
      record {
        pool = pool;
        found = found;
        same_endpoint = (==_iff pool.endpoint_id endpoint).0 same;
        same_platform = (==_iff pool.platform provider_platform_destination).0 platforms;
        allocated = counts.0;
        has_maximum = counts.1;
      },
      check_osmorphing_pools-done pools endpoint groups later,
    )

-- When the selections of an action are validated, the pools that it selects for its source, its
-- destination and the OS morphing of its instances exist and are allocated, belong to the
-- endpoint and the platform where they are used, and have a maximum that covers the instances
-- that use them: all of the action's, or those that are mapped to the pool.
pub validate_minion_pool_selections_for_action-AllSuit :
    (pools : List Pool) (action : Action)
    → validate_minion_pool_selections_for_action pools action ≡ done tt
    → AllSuit pools action
unfolding validate_minion_pool_selections_for_action
validate_minion_pool_selections_for_action-AllSuit pools action h =
    let instances = action.instances in
    let mappings = action.instance_osmorphing_minion_pool_mappings in
    let groups = group_by_pool instances mappings [] in
    let (u, origin, h1) =
      done_bind
        (check_transfer_pool pools action.origin_endpoint_id provider_platform_source instances
          action.origin_minion_pool_id)
        _ tt h in
    let (v, destination, h2) =
      done_bind
        (check_transfer_pool pools action.destination_endpoint_id provider_platform_destination
          instances action.destination_minion_pool_id)
        _ tt h1 in
    let grouped = check_osmorphing_pools-done pools action.destination_endpoint_id groups h2 in
    record {
      origin = check_transfer_pool-done pools _ _ instances action.origin_minion_pool_id origin;
      destination =
          check_transfer_pool-done pools _ _ instances action.destination_minion_pool_id
            destination;
      osmorphing =
          All-weaken (λ entry. 1 ≤ mapped instances mappings entry.1) _
            (filter (λ entry. contains entry.0 instances) mappings)
            (λ entry some_mapped. elim (Option-cases (lookup entry.1 groups)) [
              | inl none_there ↦
                  let count = rw none_there at (length-grouped instances mappings entry.1) in
                  ground (arith, count, some_mapped)
              | inr (xs, there) ↦
                  let count = rw there at (length-grouped instances mappings entry.1) in
                  subst
                    (λ n.
                      Suits pools action.destination_endpoint_id provider_platform_destination n
                        entry.1)
                    count (All-lookup _ groups entry.1 xs grouped there)
            ])
            (each_mapped instances mappings);
    }
