-- ===== src/MinionManager/Steps.antt =====
-- minion_manager/rpc/server.py, `_run_machine_allocation_subflow_for_action`: each step leaves only
-- machines recorded that the action has, of the pools that the instance may use.
use cloudshift.Prelude.{
  ℕ, ◌≡◌, refl, sym, subst, ◌∙◌, Bool, true, false, ◌&&◌, Option, none, some, List, [], ◌∷◌, ◌++◌,
  map, filter, contains, All, ◌==◌, arith, Bool-cases, ==_iff, ==_refl, inl, inr, Dict, lookup,
}
use cloudshift.Prelude.Results.{done, done_bind, done_injective, ensure}
use cloudshift.MinionManager.Pools.{Machine, Pool}
use cloudshift.MinionManager.Allocation.{AllocationError, Choice, Outcome, chosen, refused}
use cloudshift.MinionManager.Writes.{Database}
use cloudshift.MinionManager.Refresh.{is_allocated}
use cloudshift.MinionManager.Checks.{get_pool}
use cloudshift.MinionManager.Rows.{new_rows}
use cloudshift.MinionManager.Rollback.{reserve}
use cloudshift.MinionManager.Owned.{is_owned, is_owned-weaken, record_choice-done}
use cloudshift.MinionManager.Chosen.{is_chosen, allocate_machines-AllChosen, is_owned-kept}
use cloudshift.MinionManager.Assign.{
  Minions, Flow, Role, give_entry, register, minion_or_error, destination_of, reuse_destination,
  stop_at, with_machines, with_minions, is_some_id, written, write, allocate_from, allocate_role,
  allocate_group, allocate_groups, allocate_selected,
}
use cloudshift.MinionManager.Served.{stop_lem}
use cloudshift.MinionManager.Recorded.{
  Permission, Recorded, is_right, owned_or_none, Recorded-later, give_entry-Recorded,
  register-Recorded, get_pool-id, All-owned,
}

-- The instances of the groups may use their pools for the OS morphing.
abbrev pub MayUse : Permission → Dict (List ℕ) → Type 0
MayUse may groups =
    All (λ g. (i : ℕ) → contains i g.1 ≡ true → may Role.osmorphing i g.0 ≡ true) groups

module _ (succeeds : ℕ → Bool) (uuid : ℕ → ℕ) (now : ℕ) (pools : List Pool) (may : Permission)
    (action : ℕ) where
  -- What is recorded is right, with the rows as they are.
  abbrev pub Right : Flow → Type 0
  Right flow = Recorded may action flow.database.machines flow.minions

  written-Right :
      (role : Role) (pool_id : ℕ) (c : Choice) (r : Bool × Database) (flow : Flow)
      (result : List (ℕ × ℕ) × Flow)
      → written succeeds uuid now pools c r flow ≡ done result
      → (r.0 ≡ true
          → r.1.machines
            ≡ map (reserve now action (map (λ entry. entry.0) c.existing)) flow.database.machines
              ++ new_rows pool_id action c.new_machines)
      → All
          (λ a.
            (may role a.0 pool_id ≡ true)
            × (is_chosen (filter (λ m. m.pool_id == pool_id) flow.database.machines) c a.1 ≡ true))
          c.allocations
      → Right flow
      → Right result.1
        × All (λ a. is_owned (may role a.0) action result.1.database.machines a.1 ≡ true) result.0
  written-Right role pool_id c (false, db) flow result h rows all good = ground (arith, h)
  written-Right role pool_id c (true, db) flow result h rows all good =
      subst
        (λ result.
          Right result.1
          × All (λ a. is_owned (may role a.0) action result.1.database.machines a.1 ≡ true)
              result.0)
        (done_injective _ result h)
        (subst
          (λ ms.
            Recorded may action ms flow.minions
            × All (λ a. is_owned (may role a.0) action ms a.1 ≡ true) c.allocations)
          (sym (rows refl))
          (
            Recorded-later may action flow.database.machines _ flow.minions
                (λ role i id.
                  is_owned-kept (may role i) now action id (map (λ entry. entry.0) c.existing)
                    flow.database.machines (new_rows pool_id action c.new_machines))
                good,
            All-owned (may role) now action pool_id c flow.database.machines c.allocations all,
          ))

  write-Right :
      (role : Role) (pool_id : ℕ) (o : Outcome) (flow : Flow) (result : List (ℕ × ℕ) × Flow)
      → write succeeds uuid now pools action pool_id o flow ≡ done result
      → ((c : Choice)
          → o ≡ chosen c
          → All
              (λ a.
                (may role a.0 pool_id ≡ true)
                × (is_chosen (filter (λ m. m.pool_id == pool_id) flow.database.machines) c a.1
                    ≡ true))
              c.allocations)
      → Right flow
      → Right result.1
        × All (λ a. is_owned (may role a.0) action result.1.database.machines a.1 ≡ true) result.0
  write-Right role pool_id (refused e) flow result h all good = ground (arith, h)
  write-Right role pool_id (chosen c) flow result h all good =
      written-Right role pool_id c _ flow result h
        (record_choice-done succeeds now pool_id action (map (λ entry. entry.0) c.existing)
          c.new_machines flow.database)
        (all c refl) good

  allocate_from-Right :
      (role : Role) (pool_id : ℕ) (instances : List ℕ) (flow : Flow) (result : List (ℕ × ℕ) × Flow)
      → ((i : ℕ) → contains i instances ≡ true → may role i pool_id ≡ true)
      → allocate_from succeeds uuid now pools action pool_id instances flow ≡ done result
      → Right flow
      → Right result.1
        × All (λ a. is_owned (may role a.0) action result.1.database.machines a.1 ≡ true) result.0
  unfolding allocate_from
  allocate_from-Right role pool_id instances flow result t h good =
      let (pool, found, h1) =
        done_bind (stop_at flow.database (get_pool pool_id pools)) _ result h in
      let (u, allocated, h2) =
        done_bind
          (stop_at flow.database
            (ensure (is_allocated pool.status) AllocationError.invalid_minion_pool_state))
          _ result h1 in
      let known =
        get_pool-id pool_id pools pool
          (stop_lem flow.database (get_pool pool_id pools) pool found) in
      write-Right role pool_id _ flow result h2
        (λ c choice.
          subst
            (λ p.
              All
                (λ a.
                  (may role a.0 pool_id ≡ true)
                  × (is_chosen (filter (λ m. m.pool_id == p) flow.database.machines) c a.1 ≡ true))
                c.allocations)
            known
            (allocate_machines-AllChosen (λ i. may role i pool_id) _
              (with_machines pool flow.database) instances c t choice))
        good

  allocate_role-Right :
      (role : Role) (pool_id : ℕ) (instances : List ℕ) (flow next : Flow)
      → ((i : ℕ) → contains i instances ≡ true → may role i pool_id ≡ true)
      → allocate_role succeeds uuid now pools role action pool_id instances flow ≡ done next
      → Right flow
      → Right next
  unfolding allocate_role
  allocate_role-Right role pool_id instances flow next t h good =
      let (result, found, h1) =
        done_bind (allocate_from succeeds uuid now pools action pool_id instances flow) _ next h in
      let (minions, registered, h2) =
        done_bind (stop_at result.1.database (register role result.0 result.1.minions)) _ next h1 in
      let known = allocate_from-Right role pool_id instances flow result t found good in
      subst Right (done_injective (with_minions result.1 minions) next h2) (
        register-Recorded may action result.1.database.machines role result.0 result.1.minions
          minions known.1
          (stop_lem result.1.database (register role result.0 result.1.minions) minions registered)
          known.0)

  -- The machine of the destination of an instance, where it is reused.
  destination_lem :
      (allowed : ℕ → Bool) (ms : List Machine) (o : Option Minions) (may_use : ℕ → Bool) (id : ℕ)
      → destination_of o ≡ done id
      → ((q : ℕ) → may_use q ≡ true → allowed q ≡ true)
      → is_right may_use action ms Role.destination o ≡ true
      → is_owned allowed action ms id ≡ true
  destination_lem allowed ms none may_use id h more right = ground (arith, h)
  destination_lem allowed ms (some m) may_use id h more right = from m.destination_minion_id h right
    where
      from :
          (o : Option ℕ)
          → minion_or_error o ≡ done id
          → owned_or_none may_use action ms o ≡ true
          → is_owned allowed action ms id ≡ true
      from none h right = ground (arith, h)
      from (some x) h right =
          is_owned-weaken may_use allowed action id ms more
            (subst (λ x. is_owned may_use action ms x ≡ true) (done_injective x id h) right)

  reuse-Recorded :
      (ms : List Machine) (instances : List ℕ) (old new : Dict Minions)
      → ((i q : ℕ)
          → contains i instances ≡ true
          → may Role.destination i q ≡ true
          → may Role.osmorphing i q ≡ true)
      → reuse_destination instances old ≡ done new
      → Recorded may action ms old
      → Recorded may action ms new
  unfolding reuse_destination Recorded
  reuse-Recorded ms [] old new t h good =
      subst (Recorded may action ms) (done_injective old new h) good
  reuse-Recorded ms (j ∷ instances) old new t h good =
      let (id, has, h1) = done_bind (destination_of (lookup j old)) _ new h in
      let (next, given, h2) =
        done_bind (give_entry Role.osmorphing id j (lookup j old) old) _ new h1 in
      let owned =
        destination_lem (may Role.osmorphing j) ms (lookup j old) (may Role.destination j) id has
          (λ q. t j q (ground (arith, ==_refl j))) (good Role.destination j) in
      reuse-Recorded ms instances next new (λ i q g. t i q (ground (arith, g))) h2
        (give_entry-Recorded may action ms Role.osmorphing id j (lookup j old) old next refl owned
          given good)

  module _ (pool : Option ℕ)
      (to : (i q : ℕ) → may Role.destination i q ≡ true → is_some_id pool q ≡ true) where
    one_pool : (o : Option ℕ) (p q : ℕ) → is_some_id o p ≡ true → is_some_id o q ≡ true → p ≡ q
    one_pool none p q h g = ground (arith, h)
    one_pool (some x) p q h g = (==_iff p x).0 h ∙ sym ((==_iff q x).0 g)

    group-Right :
        (transfer : Bool) (p : ℕ) (instances : List ℕ) (flow next : Flow)
        → ((i : ℕ) → contains i instances ≡ true → may Role.osmorphing i p ≡ true)
        → allocate_group succeeds uuid now pools transfer action pool p instances flow ≡ done next
        → Right flow
        → Right next
    unfolding allocate_group
    group-Right transfer p instances flow next t h good =
        elim (Bool-cases (is_some_id pool p && transfer)) [
          | inr e ↦ allocate_role-Right Role.osmorphing p instances flow next t (rw e at h) good
          | inl e ↦
              let reused = stop_at flow.database (reuse_destination instances flow.minions) in
              let (minions, has, h1) = done_bind reused _ next (rw e at h) in
              let here : is_some_id pool p ≡ true = ground (arith, e) in
              subst Right (done_injective (with_minions flow minions) next h1) (
                reuse-Recorded flow.database.machines instances flow.minions minions
                  (λ i q g m.
                    subst (λ q. may Role.osmorphing i q ≡ true) (one_pool pool p q here (to i q m))
                      (t i g))
                  (stop_lem flow.database (reuse_destination instances flow.minions) minions has)
                  good)
        ]

    pub groups-Right :
        (transfer : Bool) (groups : Dict (List ℕ)) (flow next : Flow)
        → MayUse may groups
        → allocate_groups succeeds uuid now pools transfer action pool groups flow ≡ done next
        → Right flow
        → Right next
    unfolding allocate_groups
    groups-Right transfer [] flow next t h good = subst Right (done_injective flow next h) good
    groups-Right transfer ((p, instances) ∷ groups) flow next (t, ts) h good =
        let (middle, one, h1) =
          done_bind (allocate_group succeeds uuid now pools transfer action pool p instances flow) _
            next h in
        groups-Right transfer groups middle next ts h1
          (group-Right transfer p instances flow middle t one good)

  pub selected-Right :
      (role : Role) (included : Bool) (o : Option ℕ) (instances : List ℕ) (flow next : Flow)
      → ((i q : ℕ) → is_some_id o q ≡ true → may role i q ≡ true)
      → allocate_selected succeeds uuid now pools role included action o instances flow ≡ done next
      → Right flow
      → Right next
  selected-Right role true none instances flow next t h good =
      subst Right (done_injective flow next h) good
  selected-Right role false none instances flow next t h good =
      subst Right (done_injective flow next h) good
  selected-Right role false (some p) instances flow next t h good =
      subst Right (done_injective flow next h) good
  selected-Right role true (some p) instances flow next t h good =
      allocate_role-Right role p instances flow next (λ i g. t i p (ground (arith, ==_refl p))) h
        good
