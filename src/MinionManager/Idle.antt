-- ===== src/MinionManager/Idle.antt =====
-- The machines that an action gets from a pool whose selection was validated.
use cloudshift.Prelude.{
  ℕ, ◌≤◌, ◌≡◌, refl, sym, ap, subst, ◌∙◌, true, false, Option, none, some, List, [], ◌∷◌, length,
  contains, All, ◌==◌, arith, ==_iff,
}
use cloudshift.Prelude.Results.{done}
use cloudshift.Conductor.Evolves.{Distinct}
use cloudshift.MinionManager.Pools.{Machine, Pool, is_available}
use cloudshift.MinionManager.Allocation.{
  Choice, chosen, available_machines, select_machine, machine_ids, instances_of, choose, choose_all,
  has_room, allocate_machines,
}
use cloudshift.MinionManager.Checks.{
  Action, Attempt, provider_platform_source, get_pool, validate_minion_pool_selections_for_action,
}
use cloudshift.MinionManager.Selected.{Suits, validate_minion_pool_selections_for_action-AllSuit}

pub instances_of-choose :
    (uuid : ℕ → ℕ) (i : ℕ) (o : Option Machine) (c : Choice)
    → instances_of (choose uuid i o c) ≡ i ∷ instances_of c
instances_of-choose uuid i none c = refl
instances_of-choose uuid i (some m) c = refl

still_apart :
    (i : ℕ) (is old : List ℕ)
    → All (λ j. (i == j) ≡ false) is
    → All (λ j. contains j old ≡ false) is
    → All (λ j. contains j (i ∷ old) ≡ false) is
still_apart i [] old a b = tt
still_apart i (j ∷ is) old (h, a) (k, b) =
    (ground (arith, h, k, ==_iff i j, ==_iff j i), still_apart i is old a b)

-- Every instance gets a machine, old or new.
choose_all-chosen :
    (uuid : ℕ → ℕ) (machines : List Machine) (is : List ℕ) (c : Choice)
    → Distinct is
    → All (λ i. contains i (instances_of c) ≡ false) is
    → (d : Choice) × (choose_all uuid machines is c ≡ chosen d)
unfolding choose_all
choose_all-chosen uuid machines [] c distinct apart = (c, refl)
choose_all-chosen uuid machines (i ∷ is) c (a, distinct) (h, apart) =
    let next = select_machine (machine_ids c) machines in
    rw h (
      choose_all-chosen uuid machines is (choose uuid i next c) distinct (
        subst (λ xs. All (λ j. contains j xs ≡ false) is) (sym (instances_of-choose uuid i next c))
          (still_apart i is (instances_of c) a apart)))

all_available :
    (machines : List Machine)
    → All (λ m. is_available m.allocation_status ≡ true) machines
    → length (available_machines machines) ≡ length machines
all_available [] a = refl
all_available (m ∷ machines) (h, a) = rw (h, all_available machines a) refl

none_chosen : (is : List ℕ) → All (λ i. contains i [] ≡ false) is
none_chosen [] = tt
none_chosen (i ∷ is) = (refl, none_chosen is)

allocate_machines-chosen :
    (uuid : ℕ → ℕ) (pool : Pool) (instances : List ℕ)
    → length instances ≤ pool.maximum_minions
    → All (λ m. is_available m.allocation_status ≡ true) pool.machines
    → Distinct instances
    → (c : Choice) × (allocate_machines uuid pool instances ≡ chosen c)
unfolding allocate_machines
allocate_machines-chosen uuid pool instances fits idle distinct =
    let room : has_room pool instances ≡ true =
      ground (arith, fits, all_available pool.machines idle) in
    rw room (choose_all-chosen uuid pool.machines instances _ distinct (none_chosen instances))

done_value : Attempt Pool → Pool → Pool
done_value (done pool) other = pool
done_value m other = other

-- An action whose selections are validated gets its machines from the pool of its source, while
-- all machines of that pool are available: the allocation is not refused. The instances of the
-- action differ from each other.
pub allocate_machines-validate :
    (uuid : ℕ → ℕ) (pools : List Pool) (action : Action) (id : ℕ) (pool : Pool)
    → validate_minion_pool_selections_for_action pools action ≡ done tt
    → action.origin_minion_pool_id ≡ some id
    → get_pool id pools ≡ done pool
    → All (λ m. is_available m.allocation_status ≡ true) pool.machines
    → Distinct action.instances
    → (c : Choice) × (allocate_machines uuid pool action.instances ≡ chosen c)
unfolding done_value
allocate_machines-validate uuid pools action id pool valid origin found idle distinct =
    let suits : Suits pools action.origin_endpoint_id provider_platform_source
        (length action.instances) id =
      rw origin at (validate_minion_pool_selections_for_action-AllSuit pools action valid).origin in
    let same : suits.pool ≡ pool = ap (λ m. done_value m pool) (sym suits.found ∙ found) in
    allocate_machines-chosen uuid pool action.instances
      (subst (λ p. length action.instances ≤ p.maximum_minions) same suits.has_maximum) idle
      distinct
