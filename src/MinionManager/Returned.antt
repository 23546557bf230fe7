-- ===== src/MinionManager/Returned.antt =====
-- The rows after an action has given its machines back.
use cloudshift.Prelude.{
  ℕ, ◌+◌, ◌≤◌, ◌≡◌, refl, sym, ap, subst, ◌∙◌, Bool, true, false, not, ◌&&◌, none, some, List, [],
  ◌∷◌, map, filter, is_empty, contains, All, leb, ◌==◌, if◌then◌else◌, arith, Bool-cases, ==_iff,
  ==_refl, inl, inr,
}
use cloudshift.Conductor.Evolves.{Distinct}
use cloudshift.MinionManager.Pools.{Machine, MachineStatus}
use cloudshift.MinionManager.Capacity.{ids, in_not_lem}
use cloudshift.MinionManager.Release.{
  is_uninitialized, is_allocated_to, group_machines, deallocate_minion_machines_for_action,
}
use cloudshift.MinionManager.Released.{count, any_machine, gone, kept, released_rows, Fits, Once}
use cloudshift.MinionManager.Deallocated.{
  flatten, released_none, release_pools_lem, count-group_machines,
}

abbrev uninitialized : Machine → Bool
uninitialized m = is_uninitialized m.allocation_status

abbrev initialized : Machine → Bool
initialized m = not (is_uninitialized m.allocation_status)

gone-count : (x : ℕ) (ms : List Machine) → contains x (gone ms) ≡ leb 1 (count uninitialized x ms)
gone-count x [] = refl
gone-count x (m ∷ ms) = ground (arith, gone-count x ms, ==_iff m.id x, ==_iff x m.id)

kept-count : (x : ℕ) (ms : List Machine) → contains x (kept ms) ≡ leb 1 (count initialized x ms)
kept-count x [] = refl
kept-count x (m ∷ ms) = ground (arith, kept-count x ms, ==_iff m.id x, ==_iff x m.id)

at_most_one : (b : Bool) → (if b then 1 else 0) ≤ 1
at_most_one b = ground arith

module _ (test : Machine → Bool) where
  count-none :
      (p : Machine → Bool) (x : ℕ) (ms : List Machine)
      → contains x (ids ms) ≡ false
      → count p x (filter test ms) ≡ 0
  count-none p x [] h = refl
  count-none p x (m ∷ ms) h = elim (Bool-cases (test m)) [
    | inl e ↦ rw e (ground (arith, h, count-none p x ms, ==_iff m.id x, ==_iff x m.id))
    | inr e ↦ rw e (count-none p x ms (ground (arith, h)))
  ]

  count-first :
      (p : Machine → Bool) (x : ℕ) (m : Machine) (ms : List Machine)
      → count p x (filter test (m ∷ ms))
        ≡ (if test m && (p m && m.id == x) then 1 else 0) + count p x (filter test ms)
  count-first p x m ms = elim (Bool-cases (test m)) [
    | inl e ↦ rw e (omega arith)
    | inr e ↦ rw e (omega arith)
  ]

  -- With different identifiers, each machine counts for itself.
  abbrev pub Alone : (Machine → Bool) → (all some_of : List Machine) → Type 0
  Alone p ms rows = All (λ r. count p r.id (filter test ms) ≡ (if test r && p r then 1 else 0)) rows

  Alone-later :
      (p : Machine → Bool) (m : Machine) (ms rows : List Machine)
      → All (λ y. (m.id == y) ≡ false) (ids rows)
      → Alone p ms rows
      → Alone p (m ∷ ms) rows
  Alone-later p m ms [] a b = tt
  Alone-later p m ms (r ∷ rows) (h, a) (k, b) =
      (count-first p r.id m ms ∙ rw (h, k) (ground arith), Alone-later p m ms rows a b)

  pub alone : (p : Machine → Bool) (ms : List Machine) → Distinct (ids ms) → Alone p ms ms
  alone p [] d = tt
  alone p (m ∷ ms) (a, d) = (
    count-first p m.id m ms
        ∙ rw (==_refl m.id, count-none p m.id ms (in_not_lem m.id (ids ms) a)) (ground arith),
    Alone-later p m ms ms a (alone p ms d),
  )

  pub Once-filter : (ms : List Machine) → Distinct (ids ms) → Once (filter test ms)
  Once-filter [] d x = omega arith
  Once-filter (m ∷ ms) (a, d) x = elim (Bool-cases (m.id == x)) [
    | inl e ↦
        subst (λ y. count any_machine y (filter test (m ∷ ms)) ≤ 1) ((==_iff m.id x).0 e)
          (omega (
            arith,
            count-first any_machine m.id m ms,
            count-none any_machine m.id ms (in_not_lem m.id (ids ms) a),
            at_most_one (test m && (any_machine m && m.id == m.id)),
          ))
    | inr e ↦
        let not_this : (if test m && (any_machine m && m.id == x) then 1 else 0) ≤ 0 =
          rw e (ground arith) in
        omega (arith, Once-filter ms d x, count-first any_machine x m ms, not_this)
  ]

  pub Fits-filter : (ms : List Machine) → Fits (filter test ms) ms
  Fits-filter ms x h = elim (Bool-cases (contains x (ids ms))) [
    | inl e ↦ e
    | inr e ↦ ground (arith, h, count-none any_machine x ms e)
  ]

abbrev pub given_back : Machine → Machine
given_back m = record m { allocation_status = MachineStatus.available; allocated_action = none }

-- What becomes of the rows, one by one: the machines of the action that were never made are gone,
-- its other machines are available and belong to no action.
abbrev pub returned : (action : ℕ) → List Machine → List Machine
returned action rows =
    map (λ m. if is_allocated_to action m then given_back m else m)
      (filter (λ m. not (is_allocated_to action m && is_uninitialized m.allocation_status)) rows)

returned_lem :
    (action : ℕ) (deleted freed : List ℕ) (rows : List Machine)
    → All (λ r. contains r.id deleted ≡ (is_allocated_to action r && uninitialized r)) rows
    → All (λ r. contains r.id freed ≡ (is_allocated_to action r && initialized r)) rows
    → released_rows freed deleted rows ≡ returned action rows
returned_lem action deleted freed [] a b = refl
returned_lem action deleted freed (m ∷ rows) (h, a) (k, b) =
    let rest = returned_lem action deleted freed rows a b in
    elim (Bool-cases (is_allocated_to action m)) [
      | inr e ↦ rw (h, e, k, e) (ap (λ others. m ∷ others) rest)
      | inl e ↦ elim (Bool-cases (is_uninitialized m.allocation_status)) [
        | inl g ↦ rw (h, e, g) rest
        | inr g ↦ rw (h, e, g, k, e, g) (ap (λ others. given_back m ∷ others) rest)
      ]
    ]

pub empty_lem : (ms : List Machine) → is_empty ms ≡ true → ms ≡ []
empty_lem [] h = refl
empty_lem (m ∷ ms) h = ground (arith, h)

-- The identifiers of the groups are those of the machines of the action.
grouped_alone :
    (action : ℕ) (p : Machine → Bool) (xs : List ℕ) (rows : List Machine)
    → ((x : ℕ)
        → contains x xs
          ≡ leb 1 (count p x (flatten (group_machines (filter (is_allocated_to action) rows) []))))
    → Distinct (ids rows)
    → All (λ r. contains r.id xs ≡ (is_allocated_to action r && p r)) rows
grouped_alone action p xs rows h d = each rows (alone (is_allocated_to action) p rows d)
  where
    each :
        (some_rows : List Machine)
        → Alone (is_allocated_to action) p rows some_rows
        → All (λ r. contains r.id xs ≡ (is_allocated_to action r && p r)) some_rows
    each [] a = tt
    each (r ∷ some_rows) (k, a) = (
      h r.id
          ∙ rw (count-group_machines p r.id (filter (is_allocated_to action) rows) [], k)
              (ground arith),
      each some_rows a,
    )

-- Giving the machines of an action back always succeeds, and does what is said of each row: the
-- machines of the action that were never made are deleted, its other machines become available
-- and belong to no action, and all others stay as they are. The rows have different identifiers.
pub deallocate_minion_machines_for_action-returned :
    (action : ℕ) (rows : List Machine)
    → Distinct (ids rows)
    → deallocate_minion_machines_for_action action rows ≡ some (returned action rows)
unfolding deallocate_minion_machines_for_action group_machines
deallocate_minion_machines_for_action-returned action rows d =
    let mine = filter (is_allocated_to action) rows in
    let groups = group_machines mine [] in
    let all = flatten groups in
    let deleted = grouped_alone action uninitialized (gone all) rows (λ x. gone-count x all) d in
    let freed = grouped_alone action initialized (kept all) rows (λ x. kept-count x all) d in
    let whole = returned_lem action (gone all) (kept all) rows deleted freed in
    let counts : (x : ℕ) → count any_machine x all ≡ count any_machine x mine + 0 =
      λ x. count-group_machines any_machine x mine [] in
    elim (Bool-cases (is_empty mine)) [
      | inl e ↦ rw e (
          ap some (
            sym (released_none rows)
            ∙ subst
                (λ ms.
                  released_rows (kept (flatten (group_machines ms [])))
                    (gone (flatten (group_machines ms []))) rows
                  ≡ returned action rows)
                (empty_lem mine e) whole))
      | inr e ↦ rw e (
          release_pools_lem groups rows
            (λ x h. Fits-filter (is_allocated_to action) rows x (omega (arith, h, counts x)))
            (λ x. omega (arith, counts x, Once-filter (is_allocated_to action) rows d x))
          ∙ ap some whole)
    ]
