-- ===== src/MinionManager/Complete.antt =====
-- When the allocation for an action succeeds, every instance has a machine recorded for each role.
use cloudshift.Prelude.{
  ℕ, ◌≡◌, refl, sym, ap, subst, Bool, true, false, ◌&&◌, Option, none, some, List, [], ◌∷◌,
  contains, All, ◌==◌, arith, Bool-cases, ==_iff, ==_refl, inl, inr, Dict, lookup,
}
use cloudshift.Prelude.Results.{done, done_bind, done_injective}
use cloudshift.MinionManager.Pools.{Pool}
use cloudshift.MinionManager.Writes.{Database}
use cloudshift.MinionManager.Checks.{Action}
use cloudshift.MinionManager.Mappings.{AllGrouped, grouped_mappings}
use cloudshift.MinionManager.Assign.{
  Minions, Flow, Running, Role, give_entry, destination_of, allocate_group, reuse_destination,
  group_mappings, is_some_id, stop_at, with_minions, allocate_selected, allocate_groups,
  allocate_osmorphing, no_minions, run_machine_allocation,
}
use cloudshift.MinionManager.Served.{is_given, Keeps, give_entry_lem, stop_lem, allocate_role_lem}

-- Every instance of the list has a machine for the role.
abbrev AllGiven : Role → List ℕ → Dict Minions → Type 0
AllGiven role instances minions =
    (i : ℕ) → contains i instances ≡ true → is_given role (lookup i minions) ≡ true

reuse_lem :
    (instances : List ℕ) (old new : Dict Minions)
    → reuse_destination instances old ≡ done new
    → Keeps old new × AllGiven Role.osmorphing instances new
unfolding reuse_destination Keeps
reuse_lem [] old new h = (
  λ r i g. subst (λ n. is_given r (lookup i n) ≡ true) (done_injective old new h) g,
  λ i c. ground (arith, c),
)
reuse_lem (j ∷ instances) old new h =
    let (id, has, h1) = done_bind (destination_of (lookup j old)) _ new h in
    let (next, given, h2) =
      done_bind (give_entry Role.osmorphing id j (lookup j old) old) _ new h1 in
    let first = give_entry_lem Role.osmorphing id j (lookup j old) old next refl given in
    let rest = reuse_lem instances next new h2 in
    (
      λ r i g. rest.0 r i (first.0 r i g),
      λ i c. elim (Bool-cases (i == j)) [
        | inl e ↦
            subst (λ k. is_given Role.osmorphing (lookup k new) ≡ true) (sym ((==_iff i j).0 e))
              (rest.0 Role.osmorphing j first.1)
        | inr e ↦ rest.1 i (ground (arith, c, e))
      ],
    )

-- What a pool that is included gives.
abbrev pub GivenTo : Role → (included : Bool) → Option ℕ → List ℕ → Dict Minions → Type 0
GivenTo role true (some pool_id) instances minions =
    All (λ i. is_given role (lookup i minions) ≡ true) instances
GivenTo role _ _ instances minions = Unit

abbrev pub GivenMapped : (included : Bool) → (mappings : Dict ℕ) → Dict Minions → Type 0
GivenMapped true mappings minions =
    All (λ entry. is_given Role.osmorphing (lookup entry.0 minions) ≡ true) mappings
GivenMapped false mappings minions = Unit

all_of :
    (role : Role) (instances : List ℕ) (minions : Dict Minions)
    → AllGiven role instances minions
    → All (λ i. is_given role (lookup i minions) ≡ true) instances
all_of role [] minions g = tt
all_of role (i ∷ instances) minions g = (
  g i (ground (arith, ==_refl i)),
  all_of role instances minions (λ j h. g j (ground (arith, h))),
)

all_later :
    (role : Role) (instances : List ℕ) (old new : Dict Minions)
    → Keeps old new
    → All (λ i. is_given role (lookup i old) ≡ true) instances
    → All (λ i. is_given role (lookup i new) ≡ true) instances
unfolding Keeps
all_later role [] old new keeps a = tt
all_later role (i ∷ instances) old new keeps (h, a) =
    (keeps role i h, all_later role instances old new keeps a)

GivenTo-later :
    (role : Role) (included : Bool) (o : Option ℕ) (instances : List ℕ) (old new : Dict Minions)
    → Keeps old new
    → GivenTo role included o instances old
    → GivenTo role included o instances new
GivenTo-later role true none instances old new keeps s = tt
GivenTo-later role false none instances old new keeps s = tt
GivenTo-later role false (some p) instances old new keeps s = tt
GivenTo-later role true (some p) instances old new keeps s =
    all_later role instances old new keeps s

same_minions :
    (flow next : Flow)
    → ◌≡◌ {A = Running Flow} (done flow) (done next)
    → Keeps flow.minions next.minions
unfolding Keeps
same_minions flow next h r i g =
    subst (λ f. is_given r (lookup i f.minions) ≡ true) (done_injective flow next h) g

module _ (succeeds : ℕ → Bool) (uuid : ℕ → ℕ) (now : ℕ) (pools : List Pool) where
  group_lem :
      (transfer : Bool) (action : ℕ) (pool : Option ℕ) (p : ℕ) (instances : List ℕ)
      (flow next : Flow)
      → allocate_group succeeds uuid now pools transfer action pool p instances flow ≡ done next
      → Keeps flow.minions next.minions × AllGiven Role.osmorphing instances next.minions
  unfolding allocate_group Keeps
  group_lem transfer action pool p instances flow next h =
      elim (Bool-cases (is_some_id pool p && transfer)) [
        | inr e ↦
            allocate_role_lem succeeds uuid now pools Role.osmorphing action p instances flow next
              (rw e at h)
        | inl e ↦
            let reused = stop_at flow.database (reuse_destination instances flow.minions) in
            let (minions, has, h1) = done_bind reused _ next (rw e at h) in
            let same = ap (λ f. f.minions) (done_injective (with_minions flow minions) next h1) in
            subst (λ d. Keeps flow.minions d × AllGiven Role.osmorphing instances d) same
              (reuse_lem instances flow.minions minions
                (stop_lem flow.database (reuse_destination instances flow.minions) minions has))
      ]

  groups_lem :
      (transfer : Bool) (action : ℕ) (pool : Option ℕ) (groups : Dict (List ℕ)) (flow next : Flow)
      → allocate_groups succeeds uuid now pools transfer action pool groups flow ≡ done next
      → Keeps flow.minions next.minions
        × AllGrouped (λ i. is_given Role.osmorphing (lookup i next.minions) ≡ true) groups
  unfolding allocate_groups Keeps
  groups_lem transfer action pool [] flow next h = (
    λ r i g. subst (λ f. is_given r (lookup i f.minions) ≡ true) (done_injective flow next h) g,
    tt,
  )
  groups_lem transfer action pool ((p, instances) ∷ groups) flow next h =
      let (middle, one, h1) =
        done_bind (allocate_group succeeds uuid now pools transfer action pool p instances flow) _
          next h in
      let rest = groups_lem transfer action pool groups middle next h1 in
      let first : Keeps flow.minions middle.minions
          × AllGiven Role.osmorphing instances middle.minions =
        group_lem transfer action pool p instances flow middle one in
      (λ r i g. rest.0 r i (first.0 r i g), (λ i c. rest.0 Role.osmorphing i (first.1 i c), rest.1))

  selected_lem :
      (role : Role) (included : Bool) (action : ℕ) (o : Option ℕ) (instances : List ℕ)
      (flow next : Flow)
      → allocate_selected succeeds uuid now pools role included action o instances flow ≡ done next
      → Keeps flow.minions next.minions × GivenTo role included o instances next.minions
  unfolding Keeps
  selected_lem role true action none instances flow next h = (same_minions flow next h, tt)
  selected_lem role false action none instances flow next h = (same_minions flow next h, tt)
  selected_lem role false action (some p) instances flow next h = (same_minions flow next h, tt)
  selected_lem role true action (some p) instances flow next h =
      let given = allocate_role_lem succeeds uuid now pools role action p instances flow next h in
      (given.0, all_of role instances next.minions given.1)

  morphed_lem :
      (transfer included : Bool) (action : Action) (flow next : Flow)
      → allocate_osmorphing succeeds uuid now pools transfer included action flow ≡ done next
      → Keeps flow.minions next.minions
        × GivenMapped included action.instance_osmorphing_minion_pool_mappings next.minions
  unfolding Keeps
  morphed_lem transfer false action flow next h = (same_minions flow next h, tt)
  morphed_lem transfer true action flow next h =
      let mappings = action.instance_osmorphing_minion_pool_mappings in
      let given =
        groups_lem transfer action.id action.destination_minion_pool_id (group_mappings mappings [])
          flow next h in
      (
        given.0,
        (grouped_mappings (λ i. is_given Role.osmorphing (lookup i next.minions) ≡ true) mappings []
            given.1).0,
      )

  -- When the allocation for an action succeeds, a machine is recorded for every instance of the
  -- action, for each role whose pool is selected and included.
  pub run_machine_allocation-GivenTo :
      (transfer included : Bool) (action : Action) (db : Database) (flow : Flow)
      → run_machine_allocation succeeds uuid now pools transfer included action db ≡ done flow
      → GivenTo Role.origin transfer action.origin_minion_pool_id action.instances flow.minions
        × GivenTo Role.destination transfer action.destination_minion_pool_id action.instances
            flow.minions
        × GivenMapped included action.instance_osmorphing_minion_pool_mappings flow.minions
  unfolding run_machine_allocation
  run_machine_allocation-GivenTo transfer included action db flow h =
      let start : Flow = record {
        database = db;
        made = 0;
        minions = no_minions action.instances;
      } in
      let (first, origin, h1) =
        done_bind
          (allocate_selected succeeds uuid now pools Role.origin transfer action.id
            action.origin_minion_pool_id action.instances start)
          _ flow h in
      let (second, destination, h2) =
        done_bind
          (allocate_selected succeeds uuid now pools Role.destination transfer action.id
            action.destination_minion_pool_id action.instances first)
          _ flow h1 in
      let one =
        selected_lem Role.origin transfer action.id action.origin_minion_pool_id action.instances
          start first origin in
      let two =
        selected_lem Role.destination transfer action.id action.destination_minion_pool_id
          action.instances first second destination in
      let three = morphed_lem transfer included action second flow h2 in
      (
        GivenTo-later Role.origin transfer action.origin_minion_pool_id action.instances
            second.minions flow.minions three.0
            (GivenTo-later Role.origin transfer action.origin_minion_pool_id action.instances
              first.minions second.minions two.0 one.1),
        GivenTo-later Role.destination transfer action.destination_minion_pool_id action.instances
            second.minions flow.minions three.0 two.1,
        three.1,
      )
