-- ===== src/MinionManager/Provided.antt =====
-- When the allocation for an action succeeds, its instances have machines of the pools selected.
use cloudshift.Prelude.{
  ℕ, ◌≡◌, refl, ap, subst, Bool, true, false, Option, none, some, List, [], ◌∷◌, All, ◌==◌, Dict,
  lookup,
}
use cloudshift.Prelude.Results.{done, done_bind, done_injective}
use cloudshift.MinionManager.Pools.{Machine, Pool}
use cloudshift.MinionManager.Writes.{Database}
use cloudshift.MinionManager.Checks.{Action}
use cloudshift.MinionManager.Owned.{is_owned}
use cloudshift.MinionManager.Recorded.{Recorded, is_right, owned_or_none}
use cloudshift.MinionManager.Steps.{groups-Right, selected-Right}
use cloudshift.MinionManager.Assign.{
  Minions, Flow, Role, is_some_id, group_mappings, no_minions, allocate_selected,
  allocate_osmorphing, run_machine_allocation,
}
use cloudshift.MinionManager.Served.{id_of, is_given, is_some}
use cloudshift.MinionManager.Complete.{GivenTo, GivenMapped, run_machine_allocation-GivenTo}
use cloudshift.MinionManager.Permissions.{
  is_mapped, may_use, group_mappings-MayUse, is_mapped-AllMapped, no_minions-Recorded,
}

-- A machine is recorded for the role: a row of a pool that passes the test, allocated to the action.
abbrev pub machine_of : (may : ℕ → Bool) (action : ℕ) → List Machine → Option ℕ → Bool
machine_of may action machines none = false
machine_of may action machines (some id) = is_owned may action machines id

abbrev pub has_machine : (may : ℕ → Bool) (action : ℕ) → List Machine → Role → Option Minions → Bool
has_machine may action machines role none = false
has_machine may action machines role (some m) = machine_of may action machines (id_of role m)

has_lem :
    (may : ℕ → Bool) (action : ℕ) (ms : List Machine) (role : Role) (o : Option Minions)
    → is_given role o ≡ true
    → is_right may action ms role o ≡ true
    → has_machine may action ms role o ≡ true
has_lem may action ms role none given right = given
has_lem may action ms role (some m) given right = from (id_of role m) given right
  where
    from :
        (o : Option ℕ)
        → is_some o ≡ true
        → owned_or_none may action ms o ≡ true
        → machine_of may action ms o ≡ true
    from none given right = given
    from (some id) given right = right

-- What a pool that is included gives to the instances of an action.
abbrev pub Served : Role → (included : Bool) → Option ℕ → Action → Flow → Type 0
Served role true (some pool_id) action flow =
    All
      (λ i.
        has_machine (λ q. q == pool_id) action.id flow.database.machines role
          (lookup i flow.minions)
        ≡ true)
      action.instances
Served role _ _ action flow = Unit

-- What the pools that instances are mapped to give.
abbrev pub Morphed : (included : Bool) → Action → Flow → Type 0
Morphed true action flow =
    All
      (λ entry.
        has_machine (λ q. is_mapped entry.0 q action.instance_osmorphing_minion_pool_mappings)
          action.id flow.database.machines Role.osmorphing (lookup entry.0 flow.minions)
        ≡ true)
      action.instance_osmorphing_minion_pool_mappings
Morphed false action flow = Unit

module _ (action : Action) (flow : Flow)
    (right : Recorded (may_use action) action.id flow.database.machines flow.minions) where
  All-Served :
      (role : Role) (may : ℕ → Bool) (instances : List ℕ)
      → ((i : ℕ) → may_use action role i ≡ may)
      → All (λ i. is_given role (lookup i flow.minions) ≡ true) instances
      → All
          (λ i.
            has_machine may action.id flow.database.machines role (lookup i flow.minions) ≡ true)
          instances
  unfolding Recorded
  All-Served role may [] same all = tt
  All-Served role may (i ∷ instances) same (h, all) = (
    has_lem may action.id flow.database.machines role (lookup i flow.minions) h (
        subst
          (λ may. is_right may action.id flow.database.machines role (lookup i flow.minions) ≡ true)
          (same i) (right role i)),
    All-Served role may instances same all,
  )

  origin-Served :
      (included : Bool) (o : Option ℕ)
      → action.origin_minion_pool_id ≡ o
      → GivenTo Role.origin included o action.instances flow.minions
      → Served Role.origin included o action flow
  origin-Served true none e given = tt
  origin-Served false none e given = tt
  origin-Served false (some p) e given = tt
  origin-Served true (some p) e given =
      All-Served Role.origin (λ q. q == p) action.instances (λ i. ap is_some_id e) given

  destination-Served :
      (included : Bool) (o : Option ℕ)
      → action.destination_minion_pool_id ≡ o
      → GivenTo Role.destination included o action.instances flow.minions
      → Served Role.destination included o action flow
  destination-Served true none e given = tt
  destination-Served false none e given = tt
  destination-Served false (some p) e given = tt
  destination-Served true (some p) e given =
      All-Served Role.destination (λ q. q == p) action.instances (λ i. ap is_some_id e) given

  mapped-Morphed :
      (mappings : Dict ℕ)
      → All (λ entry. is_given Role.osmorphing (lookup entry.0 flow.minions) ≡ true) mappings
      → All
          (λ entry.
            has_machine
              (λ q. is_mapped entry.0 q action.instance_osmorphing_minion_pool_mappings)
              action.id
              flow.database.machines
              Role.osmorphing
              (lookup entry.0 flow.minions)
            ≡ true)
          mappings
  unfolding Recorded
  mapped-Morphed [] all = tt
  mapped-Morphed ((i, p) ∷ mappings) (h, all) = (
    has_lem _ action.id flow.database.machines Role.osmorphing (lookup i flow.minions) h
        (right Role.osmorphing i),
    mapped-Morphed mappings all,
  )

  included-Morphed :
      (included : Bool)
      → GivenMapped included action.instance_osmorphing_minion_pool_mappings flow.minions
      → Morphed included action flow
  included-Morphed false given = tt
  included-Morphed true given = mapped-Morphed action.instance_osmorphing_minion_pool_mappings given

module _ (succeeds : ℕ → Bool) (uuid : ℕ → ℕ) (now : ℕ) (pools : List Pool) where
  osmorphing-Recorded :
      (transfer included : Bool) (action : Action) (flow next : Flow)
      → allocate_osmorphing succeeds uuid now pools transfer included action flow ≡ done next
      → Recorded (may_use action) action.id flow.database.machines flow.minions
      → Recorded (may_use action) action.id next.database.machines next.minions
  osmorphing-Recorded transfer false action flow next h good =
      subst (λ f. Recorded (may_use action) action.id f.database.machines f.minions)
        (done_injective flow next h) good
  osmorphing-Recorded transfer true action flow next h good =
      let mappings = action.instance_osmorphing_minion_pool_mappings in
      groups-Right succeeds uuid now pools (may_use action) action.id
        action.destination_minion_pool_id (λ i q g. g) transfer (group_mappings mappings []) flow
        next
        (group_mappings-MayUse (may_use action) mappings []
          (is_mapped-AllMapped (may_use action) mappings (λ i p g. g)) tt)
        h good

  run_machine_allocation-Recorded :
      (transfer included : Bool) (action : Action) (db : Database) (flow : Flow)
      → run_machine_allocation succeeds uuid now pools transfer included action db ≡ done flow
      → Recorded (may_use action) action.id flow.database.machines flow.minions
  unfolding run_machine_allocation
  run_machine_allocation-Recorded transfer included action db flow h =
      let start : Flow = record {
        database = db;
        made = 0;
        minions = no_minions action.instances;
      } in
      let (first, origin, h1) =
        done_bind
          (allocate_selected succeeds uuid now pools Role.origin transfer action.id
            action.origin_minion_pool_id action.instances start)
          _ flow h in
      let (second, destination, h2) =
        done_bind
          (allocate_selected succeeds uuid now pools Role.destination transfer action.id
            action.destination_minion_pool_id action.instances first)
          _ flow h1 in
      osmorphing-Recorded transfer included action second flow h2 (
        selected-Right succeeds uuid now pools (may_use action) action.id Role.destination transfer
          action.destination_minion_pool_id action.instances first second (λ i q g. g) destination
          (selected-Right succeeds uuid now pools (may_use action) action.id Role.origin transfer
            action.origin_minion_pool_id action.instances start first (λ i q g. g) origin
            (no_minions-Recorded (may_use action) action.id db.machines action.instances)))

  -- When the allocation for an action succeeds, every instance of the action has a machine of the
  -- pool of the source and one of the pool of the destination, where such a pool is selected and
  -- the machines for the transfer are included; and every instance that is mapped to a pool for
  -- its OS morphing has a machine of a pool that it is mapped to, where these are included. Each
  -- of these machines is a row of the database at the end, of that pool, allocated to the action.
  pub run_machine_allocation-Served :
      (transfer included : Bool) (action : Action) (db : Database) (flow : Flow)
      → run_machine_allocation succeeds uuid now pools transfer included action db ≡ done flow
      → Served Role.origin transfer action.origin_minion_pool_id action flow
        × Served Role.destination transfer action.destination_minion_pool_id action flow
        × Morphed included action flow
  run_machine_allocation-Served transfer included action db flow h =
      let right = run_machine_allocation-Recorded transfer included action db flow h in
      let given =
        run_machine_allocation-GivenTo succeeds uuid now pools transfer included action db flow h in
      (
        origin-Served action flow right transfer action.origin_minion_pool_id refl given.0,
        destination-Served action flow right transfer action.destination_minion_pool_id refl
            given.1,
        included-Morphed action flow right included given.2,
      )
