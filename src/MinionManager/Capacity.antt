-- ===== src/MinionManager/Capacity.antt =====
-- The machines that are chosen: each is used once, and the pool stays within its maximum.
use cloudshift.Prelude.{
  ℕ, suc, ◌+◌, ◌<◌, ◌≡◌, refl, sym, ap, subst, ◌∙◌, true, false, not, ◌&&◌, Option, none, some,
  List, [], ◌∷◌, map, length, contains, All, ◌==◌, if◌then◌else◌, arith, Bool-cases, ==_refl,
  ==_iff, inl, inr, ◌⊎◌,
}
use cloudshift.Conductor.Evolves.{Distinct}
use cloudshift.MinionManager.Pools.{Machine, is_available}
use cloudshift.MinionManager.Allocation.{Choice, available_machines, select_machine, machine_ids}

abbrev pub ids : List Machine → List ℕ
ids machines = map (λ m. m.id) machines

-- The machines that can still be selected.
abbrev pub free : (exclude : List ℕ) → List Machine → ℕ
free exclude [] = 0
free exclude (m ∷ machines) =
    (if is_available m.allocation_status && not (contains m.id exclude) then 1 else 0)
    + free exclude machines

pub free-available :
    (machines : List Machine) → free [] machines ≡ length (available_machines machines)
free-available [] = refl
free-available (m ∷ machines) = ground (arith, free-available machines)

pub free-none :
    (exclude : List ℕ) (machines : List Machine)
    → select_machine exclude machines ≡ none
    → free exclude machines ≡ 0
unfolding select_machine
free-none exclude [] h = refl
free-none exclude (m ∷ machines) h = ground (arith, h, free-none exclude machines)

-- An identifier of no machine excludes nothing.
pub free_other :
    (x : ℕ) (exclude : List ℕ) (machines : List Machine)
    → contains x (ids machines) ≡ false
    → free (x ∷ exclude) machines ≡ free exclude machines
free_other x exclude [] h = refl
free_other x exclude (m ∷ machines) h =
    ground (arith, h, ==_iff m.id x, ==_iff x m.id, free_other x exclude machines)

pub not_in_lem : (x : ℕ) (ys : List ℕ) → contains x ys ≡ false → All (λ y. (x == y) ≡ false) ys
not_in_lem x [] h = tt
not_in_lem x (y ∷ ys) h = (ground (arith, h), not_in_lem x ys (ground (arith, h)))

pub in_not_lem : (x : ℕ) (ys : List ℕ) → All (λ y. (x == y) ≡ false) ys → contains x ys ≡ false
in_not_lem x [] a = refl
in_not_lem x (y ∷ ys) (h, a) = rw (h, in_not_lem x ys a) refl

machine_or : Machine → Option Machine → Machine
machine_or m none = m
machine_or m (some t) = t

-- The first machine is passed over, or it is the one selected.
select_first :
    (exclude : List ℕ) (machines : List Machine) (t m : Machine)
    → select_machine exclude (t ∷ machines) ≡ some m
    → (((is_available t.allocation_status && not (contains t.id exclude)) ≡ false)
        × (select_machine exclude machines ≡ some m))
      ⊎ ((t ≡ m) × (contains t.id exclude ≡ false) × (is_available t.allocation_status ≡ true))
unfolding select_machine machine_or
select_first exclude machines t m h = elim (Bool-cases (contains t.id exclude)) [
  | inl e ↦ inl (ground (arith, e), rw e at h)
  | inr e ↦ elim (Bool-cases (is_available t.allocation_status)) [
    | inl f ↦ inr (ap (machine_or t) (rw (e, f) at h), e, f)
    | inr f ↦ inl (ground (arith, f), rw (e, f) at h)
  ]
]

-- A machine that is selected is one of the pool, is available and not excluded.
pub select_some :
    (exclude : List ℕ) (machines : List Machine) (m : Machine)
    → select_machine exclude machines ≡ some m
    → (contains m.id exclude ≡ false) × (contains m.id (ids machines) ≡ true)
unfolding select_machine
select_some exclude [] m h = ground (arith, h)
select_some exclude (t ∷ machines) m h = elim (select_first exclude machines t m h) [
  | inl (skip, later) ↦
      let found = select_some exclude machines m later in (found.0, ground (arith, found.1))
  | inr (same, e, f) ↦
      subst (λ m. (contains m.id exclude ≡ false) × (contains m.id (ids (t ∷ machines)) ≡ true))
        same (e, ground (arith, ==_refl t.id))
]

pub free_selected :
    (exclude : List ℕ) (machines : List Machine) (m : Machine)
    → Distinct (ids machines)
    → select_machine exclude machines ≡ some m
    → suc (free (m.id ∷ exclude) machines) ≡ free exclude machines
unfolding select_machine
free_selected exclude [] m d h = ground (arith, h)
free_selected exclude (t ∷ machines) m (a, d) h = elim (select_first exclude machines t m h) [
  | inl (skip, later) ↦ ground (arith, skip, free_selected exclude machines m d later)
  | inr (same, e, f) ↦
      subst (λ m. suc (free (m.id ∷ exclude) (t ∷ machines)) ≡ free exclude (t ∷ machines)) same
        (ground (
          arith,
          e,
          f,
          ==_refl t.id,
          free_other t.id exclude machines (in_not_lem t.id (ids machines) a),
        ))
]

-- The identifiers of new machines are new, and differ from each other.
pub record Fresh (uuid : ℕ → ℕ) (machines : List Machine) : Type 0 where
  pub injective : (n k : ℕ) → uuid n ≡ uuid k → n ≡ k
  pub not_there : (n : ℕ) → contains (uuid n) (ids machines) ≡ false

-- The machine is one of the pool, or has one of the first new identifiers.
abbrev pub IsKnown : (uuid : ℕ → ℕ) → List Machine → ℕ → ℕ → Type 0
IsKnown uuid machines n x = (contains x (ids machines) ≡ true) ⊎ ((k : ℕ) × (k < n) × (uuid k ≡ x))

pub record Valid (uuid : ℕ → ℕ) (machines : List Machine) (c : Choice) : Type 0 where
  pub unused :
      free (machine_ids c) machines + length c.existing ≡ length (available_machines machines)
  pub counted : length c.allocations ≡ length c.existing + length c.new_machines
  pub only_when_needed : (length c.new_machines ≡ 0) ⊎ (free (machine_ids c) machines ≡ 0)
  pub once : Distinct (machine_ids c)
  pub known : All (IsKnown uuid machines (length c.new_machines)) (machine_ids c)

pub known_later :
    (uuid : ℕ → ℕ) (machines : List Machine) (n : ℕ) (xs : List ℕ)
    → All (IsKnown uuid machines n) xs
    → All (IsKnown uuid machines (suc n)) xs
known_later uuid machines n [] a = tt
known_later uuid machines n (x ∷ xs) (inl h, a) = (inl h, known_later uuid machines n xs a)
known_later uuid machines n (x ∷ xs) (inr (k, lt, e), a) =
    (inr (k, omega (arith, lt), e), known_later uuid machines n xs a)

-- A new identifier is not among the known ones.
pub new_lem :
    (uuid : ℕ → ℕ) (machines : List Machine) (n : ℕ) (xs : List ℕ)
    → Fresh uuid machines
    → All (IsKnown uuid machines n) xs
    → All (λ y. (uuid n == y) ≡ false) xs
new_lem uuid machines n [] fresh a = tt
new_lem uuid machines n (x ∷ xs) fresh (h, a) =
    (from h (Bool-cases (uuid n == x)), new_lem uuid machines n xs fresh a)
  where
    from :
        IsKnown uuid machines n x
        → ((uuid n == x) ≡ true) ⊎ ((uuid n == x) ≡ false)
        → (uuid n == x) ≡ false
    from h (inr e) = e
    from (inl h) (inl e) = ground (
      arith,
      h,
      subst (λ y. contains y (ids machines) ≡ false) ((==_iff (uuid n) x).0 e) (fresh.not_there n),
    )
    from (inr (k, lt, q)) (inl e) =
        ground (arith, lt, fresh.injective n k ((==_iff (uuid n) x).0 e ∙ sym q))
