-- ===== src/MinionManager/Recorded.antt =====
-- What is recorded for the instances of an action: only machines that the action has, of the pools that
-- the instance may use.
use cloudshift.Prelude.{
  ℕ, ◌≡◌, refl, sym, ap, subst, ◌∙◌, Bool, true, Option, none, some, List, [], ◌∷◌, ◌++◌, map,
  filter, All, ◌==◌, arith, Bool-cases, ==_iff, inl, inr, Dict, lookup, insert, lookup-insert,
}
use cloudshift.Prelude.Results.{done, done_bind, done_injective}
use cloudshift.MinionManager.Pools.{Machine, Pool}
use cloudshift.MinionManager.Allocation.{Choice}
use cloudshift.MinionManager.Checks.{get_pool}
use cloudshift.MinionManager.Rows.{new_rows}
use cloudshift.MinionManager.Rollback.{reserve}
use cloudshift.MinionManager.Owned.{is_owned}
use cloudshift.MinionManager.Chosen.{is_chosen, is_owned-written}
use cloudshift.MinionManager.Assign.{Minions, Role, give, give_entry, register}
use cloudshift.MinionManager.Served.{id_of}

abbrev pub owned_or_none : (may : ℕ → Bool) (action : ℕ) → List Machine → Option ℕ → Bool
owned_or_none may action machines none = true
owned_or_none may action machines (some id) = is_owned may action machines id

abbrev pub is_right : (may : ℕ → Bool) (action : ℕ) → List Machine → Role → Option Minions → Bool
is_right may action machines role none = true
is_right may action machines role (some m) = owned_or_none may action machines (id_of role m)

-- The pools that an instance may use for a role.
abbrev pub Permission : Type 0
Permission = Role → (instance pool_id : ℕ) → Bool

unfoldable pub Recorded : Permission → (action : ℕ) → List Machine → Dict Minions → Type 0
Recorded may action machines minions =
    (role : Role) (i : ℕ) → is_right (may role i) action machines role (lookup i minions) ≡ true

right_later :
    (may : ℕ → Bool) (action : ℕ) (ms ns : List Machine) (role : Role) (o : Option Minions)
    → ((id : ℕ) → is_owned may action ms id ≡ true → is_owned may action ns id ≡ true)
    → is_right may action ms role o ≡ true
    → is_right may action ns role o ≡ true
right_later may action ms ns role none keeps h = refl
right_later may action ms ns role (some m) keeps h = from (id_of role m) h
  where
    from :
        (o : Option ℕ) → owned_or_none may action ms o ≡ true → owned_or_none may action ns o ≡ true
    from none h = refl
    from (some id) h = keeps id h

pub Recorded-later :
    (may : Permission) (action : ℕ) (ms ns : List Machine) (minions : Dict Minions)
    → ((role : Role) (i id : ℕ)
        → is_owned (may role i) action ms id ≡ true
        → is_owned (may role i) action ns id ≡ true)
    → Recorded may action ms minions
    → Recorded may action ns minions
unfolding Recorded
Recorded-later may action ms ns minions keeps good role i =
    right_later (may role i) action ms ns role (lookup i minions) (keeps role i) (good role i)

-- One assignment, to the entry of the instance.
right_give :
    (may : ℕ → Bool) (action : ℕ) (ms : List Machine) (role other : Role) (id : ℕ) (m : Minions)
    → ((role ≡ other) → is_owned may action ms id ≡ true)
    → is_right may action ms other (some m) ≡ true
    → is_right may action ms other (some (give role id m)) ≡ true
right_give may action ms Role.origin Role.origin id m h old = h refl
right_give may action ms Role.destination Role.destination id m h old = h refl
right_give may action ms Role.osmorphing Role.osmorphing id m h old = h refl
right_give may action ms Role.origin Role.destination id m h old = old
right_give may action ms Role.origin Role.osmorphing id m h old = old
right_give may action ms Role.destination Role.origin id m h old = old
right_give may action ms Role.destination Role.osmorphing id m h old = old
right_give may action ms Role.osmorphing Role.origin id m h old = old
right_give may action ms Role.osmorphing Role.destination id m h old = old

pub give_entry-Recorded :
    (may : Permission) (action : ℕ) (ms : List Machine) (role : Role) (id i : ℕ)
    (o : Option Minions) (old new : Dict Minions)
    → lookup i old ≡ o
    → is_owned (may role i) action ms id ≡ true
    → give_entry role id i o old ≡ done new
    → Recorded may action ms old
    → Recorded may action ms new
unfolding Recorded
give_entry-Recorded may action ms role id i none old new e owned h good = ground (arith, h)
give_entry-Recorded may action ms role id i (some m) old new e owned h good =
    subst (Recorded may action ms) (done_injective (insert i (give role id m) old) new h) inserted
  where
    inserted : Recorded may action ms (insert i (give role id m) old)
    inserted other j = rw (lookup-insert old i (give role id m) j) (elim (Bool-cases (i == j)) [
      | inr f ↦ rw f (good other j)
      | inl f ↦
          let same = (==_iff i j).0 f in
          rw f (
            right_give (may other j) action ms role other id m
              (λ r.
                subst (λ k. is_owned (may other k) action ms id ≡ true) same
                  (subst (λ r. is_owned (may r i) action ms id ≡ true) r owned))
              (subst (λ o. is_right (may other j) action ms other o ≡ true)
                (ap (λ k. lookup k old) (sym same) ∙ e) (good other j)))
    ])

pub register-Recorded :
    (may : Permission) (action : ℕ) (ms : List Machine) (role : Role) (allocations : List (ℕ × ℕ))
    (old new : Dict Minions)
    → All (λ a. is_owned (may role a.0) action ms a.1 ≡ true) allocations
    → register role allocations old ≡ done new
    → Recorded may action ms old
    → Recorded may action ms new
unfolding register
register-Recorded may action ms role [] old new owned h good =
    subst (Recorded may action ms) (done_injective old new h) good
register-Recorded may action ms role ((j, id) ∷ allocations) old new (one, owned) h good =
    let (earlier, first, last) = done_bind (register role allocations old) _ new h in
    give_entry-Recorded may action ms role id j (lookup j earlier) earlier new refl one last
      (register-Recorded may action ms role allocations old earlier owned first good)

pub get_pool-id :
    (pool_id : ℕ) (pools : List Pool) (pool : Pool)
    → get_pool pool_id pools ≡ done pool
    → pool.id ≡ pool_id
unfolding get_pool
get_pool-id pool_id [] pool h = ground (arith, h)
get_pool-id pool_id (p ∷ pools) pool h = elim (Bool-cases (p.id == pool_id)) [
  | inl e ↦
      subst (λ p. p.id ≡ pool_id) (done_injective p pool (rw e at h)) ((==_iff p.id pool_id).0 e)
  | inr e ↦ get_pool-id pool_id pools pool (rw e at h)
]

-- A test on the instances that get a machine, and on their machines.
pub All-owned :
    (may : ℕ → ℕ → Bool) (now action pool_id : ℕ) (c : Choice) (ms : List Machine)
    (allocations : List (ℕ × ℕ))
    → All
        (λ a.
          (may a.0 pool_id ≡ true)
          × (is_chosen (filter (λ m. m.pool_id == pool_id) ms) c a.1 ≡ true))
        allocations
    → All
        (λ a.
          is_owned
            (may a.0)
            action
            (map (reserve now action (map (λ entry. entry.0) c.existing)) ms
              ++ new_rows pool_id action c.new_machines)
            a.1
          ≡ true)
        allocations
All-owned may now action pool_id c ms [] all = tt
All-owned may now action pool_id c ms (a ∷ allocations) ((t, h), all) = (
  is_owned-written (may a.0) now action pool_id a.1 c ms t h,
  All-owned may now action pool_id c ms allocations all,
)
