-- ===== src/MinionManager/Minimum.antt =====
-- A refresh keeps the minimum of machines of a pool.
use cloudshift.Prelude.{
  ℕ, ◌+◌, ◌-◌, ◌≤◌, ◌≡◌, refl, ap, subst, true, false, Option, none, some, List, [], ◌∷◌, map,
  contains, ◌==◌, if◌then◌else◌, arith, Bool-cases, Option-cases, ==_refl, ==_iff, inl, inr,
}
use cloudshift.Conductor.Evolves.{Distinct}
use cloudshift.Prelude.Results.{Fallible, done, raised}
use cloudshift.MinionManager.Pools.{Machine, Pool, RetentionStrategy}
use cloudshift.MinionManager.Allocation.{AllocationError}
use cloudshift.MinionManager.Capacity.{ids, in_not_lem}
use cloudshift.MinionManager.Refresh.{
  is_counted, counted_machines, max_minions_to_deallocate, is_allocated, Step, refresh_step,
  count_down, Plan, add_step, plan_machines, mark_machine, refresh_minion_pool,
}

-- What holds of the plan, if there is one.
abbrev Given : (Plan → Type 0) → Option Plan → Type 0
Given P none = Unit
Given P (some plan) = P plan

-- Only machines of the list are planned for.
record IsOf (machines : List Machine) (plan : Plan) : Type 0 where
  deallocate : (x : ℕ) → contains x (ids machines) ≡ false → contains x plan.to_deallocate ≡ false
  healthcheck : (x : ℕ) → contains x (ids machines) ≡ false → contains x plan.to_healthcheck ≡ false

IsOf-step :
    (m : Machine) (machines : List Machine) (step : Step) (o : Option Plan)
    → Given (IsOf machines) o
    → Given (IsOf (m ∷ machines)) (add_step step m.id o)
IsOf-step m machines Step.skip none g = tt
IsOf-step m machines Step.already_off none g = tt
IsOf-step m machines Step.shut_down none g = tt
IsOf-step m machines Step.healthcheck none g = tt
IsOf-step m machines Step.unknown_strategy o g = tt
IsOf-step m machines Step.skip (some p) g = record {
  deallocate = λ x h. g.deallocate x (ground (arith, h));
  healthcheck = λ x h. g.healthcheck x (ground (arith, h));
}
IsOf-step m machines Step.already_off (some p) g = record {
  deallocate = λ x h. g.deallocate x (ground (arith, h));
  healthcheck = λ x h. g.healthcheck x (ground (arith, h));
}
IsOf-step m machines Step.shut_down (some p) g = record {
  deallocate = λ x h. ground (arith, h, g.deallocate x);
  healthcheck = λ x h. g.healthcheck x (ground (arith, h));
}
IsOf-step m machines Step.healthcheck (some p) g = record {
  deallocate = λ x h. g.deallocate x (ground (arith, h));
  healthcheck = λ x h. ground (arith, h, g.healthcheck x);
}

plan_machines-IsOf :
    (now : ℕ) (pool : Pool) (machines : List Machine) (n : ℕ)
    → Given (IsOf machines) (plan_machines now pool machines n)
unfolding plan_machines
plan_machines-IsOf now pool [] n = record { deallocate = λ x h. refl; healthcheck = λ x h. refl }
plan_machines-IsOf now pool (m ∷ machines) n =
    IsOf-step m machines (refresh_step now pool n m) _
      (plan_machines-IsOf now pool machines (count_down (refresh_step now pool n m) n))

-- A machine that is not planned for stays as it is.
mark_unplanned :
    (strategy : RetentionStrategy) (p : Plan) (m : Machine)
    → contains m.id p.to_deallocate ≡ false
    → contains m.id p.to_healthcheck ≡ false
    → mark_machine strategy p m ≡ m
mark_unplanned strategy p m h k = rw (h, k) refl

-- Plans that agree on the machines of a list mark them alike.
map-mark :
    (strategy : RetentionStrategy) (p q : Plan) (machines : List Machine)
    → ((x : ℕ)
        → contains x (ids machines) ≡ true
        → (contains x p.to_deallocate ≡ contains x q.to_deallocate)
          × (contains x p.to_healthcheck ≡ contains x q.to_healthcheck))
    → map (mark_machine strategy p) machines ≡ map (mark_machine strategy q) machines
map-mark strategy p q [] h = refl
map-mark strategy p q (m ∷ machines) h =
    let here = h m.id (ground (arith, ==_refl m.id)) in
    rw (here.0, here.1, map-mark strategy p q machines (λ x e. h x (ground (arith, e)))) refl

other_id : (x y : ℕ) (xs : List ℕ) → contains x xs ≡ false → contains y xs ≡ true → (y == x) ≡ false
other_id x y xs h k = elim (Bool-cases (y == x)) [
  | inl e ↦ ground (arith, h, subst (λ z. contains z xs ≡ true) ((==_iff y x).0 e) k)
  | inr e ↦ e
]

abbrev weight : Machine → ℕ
weight m = if is_counted m.allocation_status then 1 else 0

counted_first :
    (m : Machine) (machines : List Machine)
    → counted_machines (m ∷ machines) ≡ weight m + counted_machines machines
counted_first m machines = elim (Bool-cases (is_counted m.allocation_status)) [
  | inl e ↦ rw e (omega arith)
  | inr e ↦ rw e (omega arith)
]

weight_le : (m : Machine) → weight m ≤ 1
weight_le m = ground arith

module _ (strategy : RetentionStrategy) where
  abbrev after : Plan → List Machine → ℕ
  after p machines = counted_machines (map (mark_machine strategy p) machines)

  -- What one step keeps of the count.
  count_step :
      (m : Machine) (machines : List Machine) (n : ℕ) (step : Step) (o : Option Plan)
      → (step ≡ Step.shut_down → 1 ≤ n)
      → contains m.id (ids machines) ≡ false
      → Given (IsOf machines) o
      → Given (λ p. counted_machines machines ≤ after p machines + count_down step n) o
      → Given
          (λ p. counted_machines (m ∷ machines) ≤ after p (m ∷ machines) + n)
          (add_step step m.id o)
  count_step m machines n Step.skip none some_left apart of g = tt
  count_step m machines n Step.already_off none some_left apart of g = tt
  count_step m machines n Step.shut_down none some_left apart of g = tt
  count_step m machines n Step.healthcheck none some_left apart of g = tt
  count_step m machines n Step.unknown_strategy o some_left apart of g = tt
  count_step m machines n Step.skip (some p) some_left apart of g =
      rw (mark_unplanned strategy p m (of.deallocate m.id apart) (of.healthcheck m.id apart)) (
        omega (
          arith,
          counted_first m machines,
          counted_first m (map (mark_machine strategy p) machines),
          g,
        ))
  count_step m machines n Step.already_off (some p) some_left apart of g =
      rw (mark_unplanned strategy p m (of.deallocate m.id apart) (of.healthcheck m.id apart)) (
        omega (
          arith,
          counted_first m machines,
          counted_first m (map (mark_machine strategy p) machines),
          g,
        ))
  count_step m machines n Step.shut_down (some p) some_left apart of g =
      rw
        (map-mark strategy (record p { to_deallocate = m.id ∷ p.to_deallocate }) p machines
          (λ y e. (rw (other_id m.id y (ids machines) apart e) refl, refl)))
        (omega (
          arith,
          counted_first m machines,
          counted_first
              (mark_machine strategy (record p { to_deallocate = m.id ∷ p.to_deallocate }) m)
              (map (mark_machine strategy p) machines),
          weight_le m,
          g,
          some_left refl,
        ))
  count_step m machines n Step.healthcheck (some p) some_left apart of g =
      rw
        (
          map-mark strategy (record p { to_healthcheck = m.id ∷ p.to_healthcheck }) p machines
              (λ y e. (refl, rw (other_id m.id y (ids machines) apart e) refl)),
          ==_refl m.id,
        )
        (omega (arith, counted_first m machines, weight_le m, g))

refresh_step-shut_down :
    (now : ℕ) (pool : Pool) (n : ℕ) (m : Machine)
    → refresh_step now pool n m ≡ Step.shut_down
    → 1 ≤ n
unfolding refresh_step
refresh_step-shut_down now pool n m h = ground (arith, h)

plan_machines-counted_machines :
    (now : ℕ) (pool : Pool) (machines : List Machine) (n : ℕ)
    → Distinct (ids machines)
    → Given
        (λ p. counted_machines machines ≤ after pool.minion_retention_strategy p machines + n)
        (plan_machines now pool machines n)
unfolding plan_machines
plan_machines-counted_machines now pool [] n d = omega arith
plan_machines-counted_machines now pool (m ∷ machines) n (a, d) =
    let step = refresh_step now pool n m in
    count_step pool.minion_retention_strategy m machines n step _
      (refresh_step-shut_down now pool n m) (in_not_lem m.id (ids machines) a)
      (plan_machines-IsOf now pool machines (count_down step n))
      (plan_machines-counted_machines now pool machines (count_down step n) d)

machines_of : List Machine → Fallible AllocationError (List Machine) → List Machine
machines_of old (done machines) = machines
machines_of old (raised e) = old

-- A refresh of a pool keeps as many machines as its minimum, or all that it had where these are
-- fewer, not counting those that are being taken down or in error. The machines have different
-- identifiers.
pub counted_machines-refresh_minion_pool :
    (now : ℕ) (pool : Pool) (machines : List Machine) (n : ℕ)
    → Distinct (ids pool.machines)
    → refresh_minion_pool now pool ≡ done machines
    → n ≤ pool.minimum_minions
    → n ≤ counted_machines pool.machines
    → n ≤ counted_machines machines
unfolding refresh_minion_pool machines_of
counted_machines-refresh_minion_pool now pool machines n d h small have =
    elim (Bool-cases (is_allocated pool.status)) [
      | inr e ↦ ground (arith, rw e at h)
      | inl e ↦
          elim (Option-cases
            (plan_machines now pool pool.machines (max_minions_to_deallocate pool))) [
              | inl f ↦ ground (arith, rw (e, f) at h)
              | inr (p, f) ↦
                  let kept : counted_machines pool.machines
                      ≤ after pool.minion_retention_strategy p pool.machines
                        + (counted_machines pool.machines - pool.minimum_minions) =
                    subst
                      (Given (λ p.
                        counted_machines pool.machines
                        ≤ after pool.minion_retention_strategy p pool.machines
                          + (counted_machines pool.machines - pool.minimum_minions)))
                      f
                      (plan_machines-counted_machines now pool pool.machines
                        (max_minions_to_deallocate pool) d) in
                  let same = ap (machines_of []) (rw (e, f) at h) in
                  subst (λ ms. n ≤ counted_machines ms) same (omega (arith, kept, small, have))
            ]
    ]
