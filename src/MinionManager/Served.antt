-- ===== src/MinionManager/Served.antt =====
-- The machines that the instances of an action have when its allocation has succeeded.
use cloudshift.Prelude.{
  ℕ, ◌≡◌, refl, sym, ap, subst, Bool, true, false, ◌||◌, Option, none, some, List, [], ◌∷◌, map,
  contains, ◌==◌, arith, Bool-cases, ==_iff, ==_refl, inl, inr, Dict, lookup, insert, lookup-insert,
}
use cloudshift.Prelude.Results.{done, raised, done_bind, done_injective, ensure}
use cloudshift.MinionManager.Pools.{Machine, Pool}
use cloudshift.MinionManager.Allocation.{
  AllocationError, Choice, Outcome, chosen, refused, select_machine, machine_ids, instances_of,
  choose, choose_all, has_room, allocate_machines,
}
use cloudshift.MinionManager.Writes.{Database}
use cloudshift.MinionManager.Refresh.{is_allocated}
use cloudshift.MinionManager.Checks.{Attempt, get_pool}
use cloudshift.MinionManager.Idle.{instances_of-choose}
use cloudshift.MinionManager.Assign.{
  Minions, Flow, Role, give, give_entry, register, stop_at, with_minions, written, write,
  allocate_from, allocate_role,
}

abbrev pub is_some : Option ℕ → Bool
is_some none = false
is_some (some x) = true

abbrev pub id_of : Role → Minions → Option ℕ
id_of Role.origin m = m.origin_minion_id
id_of Role.destination m = m.destination_minion_id
id_of Role.osmorphing m = m.osmorphing_minion_id

-- The instance has a machine for the role.
abbrev pub is_given : Role → Option Minions → Bool
is_given role none = false
is_given role (some m) = is_some (id_of role m)

-- Machines that were given stay given.
unfoldable pub Keeps : Dict Minions → Dict Minions → Type 0
Keeps old new =
    (role : Role) (i : ℕ)
    → is_given role (lookup i old) ≡ true
    → is_given role (lookup i new) ≡ true

give_keeps :
    (role other : Role) (id : ℕ) (m : Minions)
    → is_given other (some m) ≡ true
    → is_given other (some (give role id m)) ≡ true
give_keeps role other id m h = ground (arith, h)

give_gives : (role : Role) (id : ℕ) (m : Minions) → is_given role (some (give role id m)) ≡ true
give_gives role id m = ground arith

insert_lem :
    (role : Role) (id i : ℕ) (m : Minions) (old : Dict Minions)
    → lookup i old ≡ some m
    → Keeps old (insert i (give role id m) old)
      × (is_given role (lookup i (insert i (give role id m) old)) ≡ true)
unfolding Keeps
insert_lem role id i m old h = (
  λ other j g. rw (lookup-insert old i (give role id m) j) (elim (Bool-cases (i == j)) [
    | inr e ↦ rw e g
    | inl e ↦ rw e (
        give_keeps role other id m (
          subst (λ o. is_given other o ≡ true) h
            (subst (λ k. is_given other (lookup k old) ≡ true) (sym ((==_iff i j).0 e)) g)))
  ]),
  rw (lookup-insert old i (give role id m) i, ==_refl i) (give_gives role id m),
)

pub give_entry_lem :
    (role : Role) (id i : ℕ) (o : Option Minions) (old new : Dict Minions)
    → lookup i old ≡ o
    → give_entry role id i o old ≡ done new
    → Keeps old new × (is_given role (lookup i new) ≡ true)
give_entry_lem role id i none old new e h = ground (arith, h)
give_entry_lem role id i (some m) old new e h =
    subst (λ n. Keeps old n × (is_given role (lookup i n) ≡ true))
      (done_injective (insert i (give role id m) old) new h) (insert_lem role id i m old e)

register_lem :
    (role : Role) (allocations : List (ℕ × ℕ)) (old new : Dict Minions)
    → register role allocations old ≡ done new
    → Keeps old new
      × ((i : ℕ)
          → contains i (map (λ a. a.0) allocations) ≡ true
          → is_given role (lookup i new) ≡ true)
unfolding register Keeps
register_lem role [] old new h = (
  λ r i g. subst (λ n. is_given r (lookup i n) ≡ true) (done_injective old new h) g,
  λ i c. ground (arith, c),
)
register_lem role ((j, id) ∷ allocations) old new h =
    let (earlier, first, last) = done_bind (register role allocations old) _ new h in
    let before = register_lem role allocations old earlier first in
    let given = give_entry_lem role id j (lookup j earlier) earlier new refl last in
    (
      λ r i g. given.0 r i (before.0 r i g),
      λ i c. elim (Bool-cases (i == j)) [
        | inl e ↦ subst (λ k. is_given role (lookup k new) ≡ true) (sym ((==_iff i j).0 e)) given.1
        | inr e ↦ given.0 role i (before.1 i (ground (arith, c, e)))
      ],
    )

-- Every instance has an allocation, when machines are chosen.
choice_or : Choice → Outcome → Choice
choice_or c (chosen d) = d
choice_or c (refused e) = c

choose_all_covers :
    (uuid : ℕ → ℕ) (machines : List Machine) (is : List ℕ) (c d : Choice)
    → choose_all uuid machines is c ≡ chosen d
    → (i : ℕ) → (contains i is || contains i (instances_of c)) ≡ true
    → contains i (instances_of d) ≡ true
unfolding choose_all choice_or
choose_all_covers uuid machines [] c d h i g =
    subst (λ d. contains i (instances_of d) ≡ true) (ap (choice_or c) h) g
choose_all_covers uuid machines (j ∷ is) c d h i g =
    elim (Bool-cases (contains j (instances_of c))) [
      | inl e ↦ ground (arith, rw e at h)
      | inr e ↦
          let o = select_machine (machine_ids c) machines in
          choose_all_covers uuid machines is (choose uuid j o c) d (rw e at h) i
            (rw (instances_of-choose uuid j o c) (ground (arith, g)))
    ]

allocate_machines_covers :
    (uuid : ℕ → ℕ) (pool : Pool) (instances : List ℕ) (d : Choice) (i : ℕ)
    → allocate_machines uuid pool instances ≡ chosen d
    → contains i instances ≡ true
    → contains i (instances_of d) ≡ true
unfolding allocate_machines
allocate_machines_covers uuid pool instances d i h g = elim (Bool-cases (has_room pool instances)) [
  | inl e ↦ choose_all_covers uuid pool.machines instances _ d (rw e at h) i (ground (arith, g))
  | inr e ↦ ground (arith, rw e at h)
]

pub stop_lem :
    {A : Type 0} (db : Database) (m : Attempt A) (a : A) → stop_at db m ≡ done a → m ≡ done a
stop_lem db (done b) a h = ap done (done_injective b a h)
stop_lem db (raised e) a h = ground (arith, h)

module _ (succeeds : ℕ → Bool) (uuid : ℕ → ℕ) (now : ℕ) (pools : List Pool) where
  -- What the machines of a pool are registered with.
  abbrev Result : Type 0
  Result = List (ℕ × ℕ) × Flow

  written_lem :
      (c : Choice) (r : Bool × Database) (flow : Flow) (result : Result)
      → written succeeds uuid now pools c r flow ≡ done result
      → (c.allocations ≡ result.0) × (flow.minions ≡ result.1.minions)
  written_lem c (true, db) flow result h =
      let same = done_injective _ result h in (ap (λ r. r.0) same, ap (λ r. r.1.minions) same)
  written_lem c (false, db) flow result h = ground (arith, h)

  write_lem :
      (action pool_id : ℕ) (o : Outcome) (flow : Flow) (result : Result)
      → write succeeds uuid now pools action pool_id o flow ≡ done result
      → (c : Choice) × (o ≡ chosen c)
        × (c.allocations ≡ result.0)
        × (flow.minions ≡ result.1.minions)
  write_lem action pool_id (refused e) flow result h = ground (arith, h)
  write_lem action pool_id (chosen c) flow result h =
      let same = written_lem c _ flow result h in (c, refl, same.0, same.1)

  allocate_from_lem :
      (action pool_id : ℕ) (instances : List ℕ) (flow : Flow) (result : Result) (i : ℕ)
      → allocate_from succeeds uuid now pools action pool_id instances flow ≡ done result
      → (contains i instances ≡ true → contains i (map (λ a. a.0) result.0) ≡ true)
        × (flow.minions ≡ result.1.minions)
  unfolding allocate_from
  allocate_from_lem action pool_id instances flow result i h =
      let (pool, found, h1) =
        done_bind (stop_at flow.database (get_pool pool_id pools)) _ result h in
      let (u, allocated, h2) =
        done_bind
          (stop_at flow.database
            (ensure (is_allocated pool.status) AllocationError.invalid_minion_pool_state))
          _ result h1 in
      let (c, choice, same, minions) = write_lem action pool_id _ flow result h2 in
      (
        λ g.
            subst (λ pairs. contains i (map (λ a. a.0) pairs) ≡ true) same
              (allocate_machines_covers _ _ instances c i choice g),
        minions,
      )

  pub allocate_role_lem :
      (role : Role) (action pool_id : ℕ) (instances : List ℕ) (flow next : Flow)
      → allocate_role succeeds uuid now pools role action pool_id instances flow ≡ done next
      → Keeps flow.minions next.minions
        × ((i : ℕ) → contains i instances ≡ true → is_given role (lookup i next.minions) ≡ true)
  unfolding allocate_role Keeps
  allocate_role_lem role action pool_id instances flow next h =
      let (result, found, h1) =
        done_bind (allocate_from succeeds uuid now pools action pool_id instances flow) _ next h in
      let (minions, registered, h2) =
        done_bind (stop_at result.1.database (register role result.0 result.1.minions)) _ next h1 in
      let same = ap (λ f. f.minions) (done_injective (with_minions result.1 minions) next h2) in
      let given =
        register_lem role result.0 result.1.minions minions (
          stop_lem result.1.database (register role result.0 result.1.minions) minions
            registered) in
      (
        λ r i g.
            subst (λ d. is_given r (lookup i d) ≡ true) same
              (given.0 r i (
                subst (λ d. is_given r (lookup i d) ≡ true)
                  (allocate_from_lem action pool_id instances flow result i found).1 g)),
        λ i g.
            subst (λ d. is_given role (lookup i d) ≡ true) same
              (given.1 i ((allocate_from_lem action pool_id instances flow result i found).0 g)),
      )
