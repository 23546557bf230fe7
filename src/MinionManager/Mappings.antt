-- ===== src/MinionManager/Mappings.antt =====
-- The instances that are mapped to pools, in groups.
use cloudshift.Prelude.{
  ℕ, ◌≡◌, true, Option, none, some, List, [], ◌∷◌, ◌++◌, contains, All, ◌==◌, arith, Bool-cases,
  ==_refl, inl, inr, Dict, lookup, insert,
}
use cloudshift.MinionManager.Checks.{with_instance}
use cloudshift.MinionManager.Groups.{members}
use cloudshift.MinionManager.Assign.{group_mappings}

-- The instances that are in the groups.
abbrev pub AllGrouped : (ℕ → Type 0) → Dict (List ℕ) → Type 0
AllGrouped P groups = All (λ g. (i : ℕ) → contains i g.1 ≡ true → P i) groups

contains_last : (i : ℕ) (xs : List ℕ) → contains i (xs ++ i ∷ []) ≡ true
contains_last i [] = ground (arith, ==_refl i)
contains_last i (x ∷ xs) = ground (arith, contains_last i xs)

contains_before : (i j : ℕ) (xs : List ℕ) → contains i xs ≡ true → contains i (xs ++ j ∷ []) ≡ true
contains_before i j [] h = ground (arith, h)
contains_before i j (x ∷ xs) h = ground (arith, h, contains_before i j xs)

last_member : (o : Option (List ℕ)) (i : ℕ) → contains i (with_instance o i) ≡ true
last_member none i = ground (arith, ==_refl i)
last_member (some xs) i = contains_last i xs

old_member :
    (o : Option (List ℕ)) (i j : ℕ)
    → contains j (members o) ≡ true
    → contains j (with_instance o i) ≡ true
old_member none i j h = ground (arith, h)
old_member (some xs) i j h = contains_before j i xs h

-- A group that grows keeps the instances that it had.
grouped_insert :
    (P : ℕ → Type 0) (p : ℕ) (value : List ℕ) (groups : Dict (List ℕ))
    → ((j : ℕ) → contains j (members (lookup p groups)) ≡ true → contains j value ≡ true)
    → AllGrouped P (insert p value groups)
    → ((i : ℕ) → contains i value ≡ true → P i) × AllGrouped P groups
unfolding lookup insert
grouped_insert P p value [] keeps (a, u) = (a, tt)
grouped_insert P p value ((q, xs) ∷ groups) keeps a = elim (Bool-cases (q == p)) [
  | inl e ↦ let b = rw e at a in (b.0, ((λ j h. b.0 j (keeps j (rw e h))), b.1))
  | inr e ↦
      let b = rw e at a in
      let rest = grouped_insert P p value groups (λ j h. keeps j (rw e h)) b.1 in
      (rest.0, (b.0, rest.1))
]

-- Every instance that is mapped is in a group.
pub grouped_mappings :
    (P : ℕ → Type 0) (mappings : Dict ℕ) (groups : Dict (List ℕ))
    → AllGrouped P (group_mappings mappings groups)
    → All (λ entry. P entry.0) mappings × AllGrouped P groups
unfolding group_mappings
grouped_mappings P [] groups a = (tt, a)
grouped_mappings P ((i, p) ∷ mappings) groups a =
    let rest =
      grouped_mappings P mappings (insert p (with_instance (lookup p groups) i) groups) a in
    let here =
      grouped_insert P p (with_instance (lookup p groups) i) groups (old_member (lookup p groups) i)
        rest.1 in
    ((here.0 i (last_member (lookup p groups) i), rest.0), here.1)
