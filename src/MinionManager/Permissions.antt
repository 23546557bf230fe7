-- ===== src/MinionManager/Permissions.antt =====
-- The pools that an action selects for its instances, and the groups of instances that are mapped to
-- them for the OS morphing.
use cloudshift.Prelude.{
  ℕ, ◌≡◌, refl, sym, subst, Bool, true, false, ◌&&◌, ◌||◌, Option, none, some, List, [], ◌∷◌, ◌++◌,
  contains, All, ◌==◌, arith, Bool-cases, ==_iff, ==_refl, inl, inr, Dict, lookup, insert, ◌⊎◌,
}
use cloudshift.MinionManager.Pools.{Machine}
use cloudshift.MinionManager.Checks.{Action, with_instance}
use cloudshift.MinionManager.Groups.{members}
use cloudshift.MinionManager.Recorded.{Permission, Recorded, is_right}
use cloudshift.MinionManager.Steps.{MayUse}
use cloudshift.MinionManager.Assign.{Role, is_some_id, group_mappings, no_minions}

-- The instance is mapped to the pool.
unfoldable pub is_mapped : (instance pool_id : ℕ) → (mappings : Dict ℕ) → Bool
is_mapped i p [] = false
is_mapped i p ((j, q) ∷ mappings) = ((j == i) && (q == p)) || is_mapped i p mappings

-- The pools that the action selects for a role and an instance.
abbrev pub may_use : Action → Permission
may_use action Role.origin i p = is_some_id action.origin_minion_pool_id p
may_use action Role.destination i p = is_some_id action.destination_minion_pool_id p
may_use action Role.osmorphing i p = is_mapped i p action.instance_osmorphing_minion_pool_mappings

MayUse-lookup :
    (may : Permission) (p i : ℕ) (groups : Dict (List ℕ))
    → MayUse may groups
    → contains i (members (lookup p groups)) ≡ true
    → may Role.osmorphing i p ≡ true
unfolding lookup
MayUse-lookup may p i [] u h = ground (arith, h)
MayUse-lookup may p i ((q, xs) ∷ groups) (t, u) h = elim (Bool-cases (q == p)) [
  | inl e ↦ subst (λ p. may Role.osmorphing i p ≡ true) ((==_iff q p).0 e) (t i (rw e at h))
  | inr e ↦ MayUse-lookup may p i groups u (rw e at h)
]

MayUse-insert :
    (may : Permission) (p : ℕ) (value : List ℕ) (groups : Dict (List ℕ))
    → ((i : ℕ) → contains i value ≡ true → may Role.osmorphing i p ≡ true)
    → MayUse may groups
    → MayUse may (insert p value groups)
unfolding insert
MayUse-insert may p value [] t u = (t, tt)
MayUse-insert may p value ((q, xs) ∷ groups) t (h, u) = elim (Bool-cases (q == p)) [
  | inl e ↦ rw e (t, u)
  | inr e ↦ rw e (h, MayUse-insert may p value groups t u)
]

contains-last :
    (i j : ℕ) (xs : List ℕ) → contains j (xs ++ i ∷ []) ≡ true → (contains j xs ≡ true) ⊎ (j ≡ i)
contains-last i j [] h = inr ((==_iff j i).0 (ground (arith, h)))
contains-last i j (x ∷ xs) h = elim (Bool-cases (j == x)) [
  | inl e ↦ inl (ground (arith, e))
  | inr e ↦ elim (contains-last i j xs (ground (arith, h, e))) [
    | inl f ↦ inl (ground (arith, f))
    | inr f ↦ inr f
  ]
]

with_instance-member :
    (o : Option (List ℕ)) (i j : ℕ)
    → contains j (with_instance o i) ≡ true
    → (contains j (members o) ≡ true) ⊎ (j ≡ i)
with_instance-member none i j h = contains-last i j [] h
with_instance-member (some xs) i j h = contains-last i j xs h

-- Every mapping is permitted.
pub AllMapped : Permission → Dict ℕ → Type 0
AllMapped may mappings = All (λ entry. may Role.osmorphing entry.0 entry.1 ≡ true) mappings

pub group_mappings-MayUse :
    (may : Permission) (mappings : Dict ℕ) (groups : Dict (List ℕ))
    → AllMapped may mappings
    → MayUse may groups
    → MayUse may (group_mappings mappings groups)
unfolding group_mappings AllMapped
group_mappings-MayUse may [] groups a u = u
group_mappings-MayUse may ((i, p) ∷ mappings) groups (h, a) u =
    group_mappings-MayUse may mappings _ a (
      MayUse-insert may p (with_instance (lookup p groups) i) groups
        (λ j c. elim (with_instance-member (lookup p groups) i j c) [
          | inl old ↦ MayUse-lookup may p j groups u old
          | inr same ↦ subst (λ k. may Role.osmorphing k p ≡ true) (sym same) h
        ])
        u)

pub is_mapped-AllMapped :
    (may : Permission) (mappings : Dict ℕ)
    → ((i p : ℕ) → is_mapped i p mappings ≡ true → may Role.osmorphing i p ≡ true)
    → AllMapped may mappings
unfolding is_mapped AllMapped
is_mapped-AllMapped may [] t = tt
is_mapped-AllMapped may ((i, p) ∷ mappings) t = (
  t i p (ground (arith, ==_refl i, ==_refl p)),
  is_mapped-AllMapped may mappings (λ j q h. t j q (ground (arith, h))),
)

-- Nothing is recorded at first.
pub no_minions-Recorded :
    (may : Permission) (action : ℕ) (ms : List Machine) (instances : List ℕ)
    → Recorded may action ms (no_minions instances)
unfolding Recorded lookup
no_minions-Recorded may action ms [] role i = refl
no_minions-Recorded may action ms (j ∷ instances) role i = elim (Bool-cases (j == i)) [
  | inl e ↦ rw e (empty role)
  | inr e ↦ rw e (no_minions-Recorded may action ms instances role i)
]
  where
    empty :
        (role : Role)
        → is_right (may role i) action ms role (
            some (record {
              origin_minion_id = none;
              destination_minion_id = none;
              osmorphing_minion_id = none;
            }))
          ≡ true
    empty Role.origin = refl
    empty Role.destination = refl
    empty Role.osmorphing = refl
