-- ===== src/MinionManager/Chosen.antt =====
-- What is chosen for the instances of an action, and that it is the action's when it is written.
use cloudshift.Prelude.{
  ℕ, ◌≡◌, refl, ap, subst, Bool, true, ◌&&◌, ◌||◌, Option, none, some, List, [], ◌∷◌, ◌++◌, map,
  length, filter, contains, All, ◌==◌, arith, Bool-cases, ==_refl, inl, inr,
}
use cloudshift.MinionManager.Pools.{Machine, Pool}
use cloudshift.MinionManager.Allocation.{
  Choice, Outcome, chosen, refused, select_machine, machine_ids, instances_of, choose, choose_all,
  has_room, allocate_machines,
}
use cloudshift.MinionManager.Capacity.{ids, select_some}
use cloudshift.MinionManager.Rows.{new_rows}
use cloudshift.MinionManager.Rollback.{reserve}
use cloudshift.MinionManager.Owned.{
  is_owned, is_owned-before, is_owned-after, is_owned-reserve, is_owned-chosen, is_owned-new,
}

-- An identifier that has been chosen: of a machine of the list that is marked, or of a new one.
abbrev pub is_chosen : List Machine → Choice → (id : ℕ) → Bool
is_chosen machines c id =
    (contains id (map (λ entry. entry.0) c.existing) && contains id (ids machines))
    || contains id c.new_machines

-- What has been chosen is given to instances that pass the test.
abbrev pub AllChosen : (test : ℕ → Bool) → List Machine → Choice → Type 0
AllChosen test machines c =
    All (λ a. (test a.0 ≡ true) × (is_chosen machines c a.1 ≡ true)) c.allocations

All-chosen_later :
    (test : ℕ → Bool) (machines : List Machine) (c d : Choice) (pairs : List (ℕ × ℕ))
    → ((id : ℕ) → is_chosen machines c id ≡ true → is_chosen machines d id ≡ true)
    → All (λ a. (test a.0 ≡ true) × (is_chosen machines c a.1 ≡ true)) pairs
    → All (λ a. (test a.0 ≡ true) × (is_chosen machines d a.1 ≡ true)) pairs
All-chosen_later test machines c d [] later all = tt
All-chosen_later test machines c d (a ∷ pairs) later ((t, h), all) =
    ((t, later a.1 h), All-chosen_later test machines c d pairs later all)

choose-AllChosen :
    (test : ℕ → Bool) (uuid : ℕ → ℕ) (machines : List Machine) (i : ℕ) (o : Option Machine)
    (c : Choice)
    → select_machine (machine_ids c) machines ≡ o
    → test i ≡ true
    → AllChosen test machines c
    → AllChosen test machines (choose uuid i o c)
choose-AllChosen test uuid machines i none c h t all = (
  (t, ground (arith, ==_refl (uuid (length c.new_machines)))),
  All-chosen_later test machines c (choose uuid i none c) c.allocations (λ id g. ground (arith, g))
      all,
)
choose-AllChosen test uuid machines i (some m) c h t all = (
  (t, ground (arith, ==_refl m.id, (select_some (machine_ids c) machines m h).1)),
  All-chosen_later test machines c (choose uuid i (some m) c) c.allocations
      (λ id g. ground (arith, g)) all,
)

abbrev choice_or : Choice → Outcome → Choice
choice_or c (chosen d) = d
choice_or c (refused e) = c

choose_all-AllChosen :
    (test : ℕ → Bool) (uuid : ℕ → ℕ) (machines : List Machine) (is : List ℕ) (c d : Choice)
    → ((i : ℕ) → contains i is ≡ true → test i ≡ true)
    → AllChosen test machines c
    → choose_all uuid machines is c ≡ chosen d
    → AllChosen test machines d
unfolding choose_all
choose_all-AllChosen test uuid machines [] c d t all h =
    subst (AllChosen test machines) (ap (choice_or c) h) all
choose_all-AllChosen test uuid machines (i ∷ is) c d t all h =
    elim (Bool-cases (contains i (instances_of c))) [
      | inl e ↦ ground (arith, rw e at h)
      | inr e ↦
          choose_all-AllChosen test uuid machines is _ d (λ j g. t j (ground (arith, g)))
            (choose-AllChosen test uuid machines i _ c refl (t i (ground (arith, ==_refl i))) all)
            (rw e at h)
    ]

pub allocate_machines-AllChosen :
    (test : ℕ → Bool) (uuid : ℕ → ℕ) (pool : Pool) (instances : List ℕ) (d : Choice)
    → ((i : ℕ) → contains i instances ≡ true → test i ≡ true)
    → allocate_machines uuid pool instances ≡ chosen d
    → AllChosen test pool.machines d
unfolding allocate_machines
allocate_machines-AllChosen test uuid pool instances d t h =
    elim (Bool-cases (has_room pool instances)) [
      | inl e ↦ choose_all-AllChosen test uuid pool.machines instances _ d t tt (rw e at h)
      | inr e ↦ ground (arith, rw e at h)
    ]

-- What has been chosen is the action's when it has been written, and what was the action's stays so.
pub is_owned-written :
    (may : ℕ → Bool) (now action pool_id id : ℕ) (c : Choice) (ms : List Machine)
    → may pool_id ≡ true
    → is_chosen (filter (λ m. m.pool_id == pool_id) ms) c id ≡ true
    → is_owned may action
        (map (reserve now action (map (λ entry. entry.0) c.existing)) ms
          ++ new_rows pool_id action c.new_machines)
        id
      ≡ true
is_owned-written may now action pool_id id c ms allowed h =
    let xs = map (λ entry. entry.0) c.existing in
    elim (Bool-cases (contains id c.new_machines)) [
      | inl e ↦
          is_owned-after may action id (map (reserve now action xs) ms) _
            (is_owned-new may action pool_id id c.new_machines allowed e)
      | inr e ↦ is_owned-before may action id (map (reserve now action xs) ms) _ (
          is_owned-chosen may now action pool_id id xs ms allowed (ground (arith, h, e))
            (ground (arith, h, e)))
    ]

pub is_owned-kept :
    (may : ℕ → Bool) (now action id : ℕ) (xs : List ℕ) (ms ns : List Machine)
    → is_owned may action ms id ≡ true
    → is_owned may action (map (reserve now action xs) ms ++ ns) id ≡ true
is_owned-kept may now action id xs ms ns h =
    is_owned-before may action id (map (reserve now action xs) ms) ns
      (is_owned-reserve may now action id xs ms h)
