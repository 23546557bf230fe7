-- ===== src/MinionManager/Recovered.antt =====
-- After an allocation that fails no machine belongs to the action any more.
use cloudshift.Prelude.{
  ℕ, ◌+◌, ◌≡◌, refl, sym, ap, subst, ◌∙◌, Bool, false, not, ◌&&◌, some, List, [], ◌∷◌, ◌++◌, map,
  filter, is_empty, contains, All, leb, ◌==◌, if◌then◌else◌, arith, Bool-cases, ==_iff, inl, inr,
  Dict,
}
use cloudshift.Prelude.Results.{raised}
use cloudshift.Conductor.Evolves.{Distinct}
use cloudshift.MinionManager.Pools.{Machine, Pool}
use cloudshift.MinionManager.Allocation.{AllocationError}
use cloudshift.MinionManager.Capacity.{ids}
use cloudshift.MinionManager.Writes.{Database}
use cloudshift.MinionManager.Rows.{others, others-none}
use cloudshift.MinionManager.Release.{is_uninitialized, is_allocated_to, group_machines}
use cloudshift.MinionManager.Checks.{Action}
use cloudshift.MinionManager.Assign.{run_machine_allocation}
use cloudshift.MinionManager.Released.{
  count, any_machine, Fits, Once, Fits-without, Once-later, first_there, others-without,
  contains-append,
}
use cloudshift.MinionManager.Deallocated.{
  flatten, count-append, contains-others, count-group_machines,
}
use cloudshift.MinionManager.Returned.{
  empty_lem, Alone, alone, Once-filter, Fits-filter, given_back, returned,
  deallocate_minion_machines_for_action-returned,
}
use cloudshift.MinionManager.Recovery.{
  delete_each, delete_groups, cleanup_machines, recover, failed, ending, allocate_minion_machines,
}

delete_each_lem :
    (ms rows : List Machine)
    → Fits ms rows
    → Once ms
    → delete_each ms rows ≡ some (others (ids ms) rows)
unfolding delete_each
delete_each_lem [] rows fits once = ap some (sym (others-none rows))
delete_each_lem (m ∷ ms) rows fits once = rw (first_there m ms rows fits) (
    delete_each_lem ms _ (Fits-without m ms rows once fits) (Once-later m ms once)
    ∙ ap some (others-without m.id (ids ms) rows))

others_twice :
    (xs ys : List ℕ) (rows : List Machine) → others ys (others xs rows) ≡ others (xs ++ ys) rows
others_twice xs ys [] = refl
others_twice xs ys (m ∷ rows) = elim (Bool-cases (contains m.id xs)) [
  | inl e ↦ rw (contains-append m.id xs ys, e) (others_twice xs ys rows)
  | inr e ↦
      rw (contains-append m.id xs ys, e)
        (elim (Bool-cases (contains m.id ys)) [
          | inl g ↦ rw g (others_twice xs ys rows)
          | inr g ↦ rw g (ap (λ rest. m ∷ rest) (others_twice xs ys rows))
        ])
]

ids-append : (ms ns : List Machine) → ids (ms ++ ns) ≡ ids ms ++ ids ns
ids-append [] ns = refl
ids-append (m ∷ ms) ns = ap (λ rest. m.id ∷ rest) (ids-append ms ns)

not_counted : (x : ℕ) (ms : List Machine) → count any_machine x ms ≡ 0 → contains x (ids ms) ≡ false
not_counted x [] h = refl
not_counted x (m ∷ ms) h = ground (arith, h, not_counted x ms, ==_iff m.id x, ==_iff x m.id)

delete_groups_lem :
    (groups : Dict (List Machine)) (rows : List Machine)
    → Fits (flatten groups) rows
    → Once (flatten groups)
    → delete_groups groups rows ≡ some (others (ids (flatten groups)) rows)
unfolding delete_groups
delete_groups_lem [] rows fits once = ap some (sym (others-none rows))
delete_groups_lem ((p, ms) ∷ groups) rows fits once =
    let rest = flatten groups in
    let split : (x : ℕ)
        → count any_machine x (ms ++ rest) ≡ count any_machine x ms + count any_machine x rest =
      λ x. count-append any_machine x ms rest in
    rw
      (delete_each_lem ms rows (λ x h. fits x (omega (arith, h, split x)))
        (λ x. omega (arith, once x, split x)))
      (delete_groups_lem groups (others (ids ms) rows)
          (λ x h.
            contains-others x (ids ms) rows (not_counted x ms (omega (arith, once x, h, split x)))
              (fits x (omega (arith, h, split x))))
          (λ x. omega (arith, once x, split x))
        ∙ ap some (others_twice (ids ms) (ids rest) rows)
        ∙ rw (ids-append ms rest) refl)

filter-filter :
    (p q : Machine → Bool) (ms : List Machine)
    → filter q (filter p ms) ≡ filter (λ m. p m && q m) ms
filter-filter p q [] = refl
filter-filter p q (m ∷ ms) = ground (arith, filter-filter p q ms)

filter_twice : (p : Machine → Bool) (ms : List Machine) → filter p (filter p ms) ≡ filter p ms
filter_twice p [] = refl
filter_twice p (m ∷ ms) = ground (arith, filter_twice p ms)

apart-filter :
    (p : Machine → Bool) (x : ℕ) (ms : List Machine)
    → All (λ y. (x == y) ≡ false) (ids ms)
    → All (λ y. (x == y) ≡ false) (ids (filter p ms))
apart-filter p x [] a = tt
apart-filter p x (m ∷ ms) (h, a) = elim (Bool-cases (p m)) [
  | inl e ↦ rw e (h, apart-filter p x ms a)
  | inr e ↦ rw e (apart-filter p x ms a)
]

Distinct-filter :
    (p : Machine → Bool) (ms : List Machine) → Distinct (ids ms) → Distinct (ids (filter p ms))
Distinct-filter p [] d = tt
Distinct-filter p (m ∷ ms) (a, d) = elim (Bool-cases (p m)) [
  | inl e ↦ rw e (apart-filter p m.id ms a, Distinct-filter p ms d)
  | inr e ↦ rw e (Distinct-filter p ms d)
]

-- The machines of the action that were never made.
abbrev never_made : (action : ℕ) → Machine → Bool
never_made action m = is_allocated_to action m && is_uninitialized m.allocation_status

others-test :
    (test : Machine → Bool) (xs : List ℕ) (rows : List Machine)
    → All (λ r. contains r.id xs ≡ test r) rows
    → others xs rows ≡ filter (λ m. not (test m)) rows
others-test test xs [] a = refl
others-test test xs (m ∷ rows) (h, a) = rw (h, others-test test xs rows a) refl

ids-count : (x : ℕ) (ms : List Machine) → contains x (ids ms) ≡ leb 1 (count any_machine x ms)
ids-count x [] = refl
ids-count x (m ∷ ms) = ground (arith, ids-count x ms, ==_iff m.id x, ==_iff x m.id)

grouped_test :
    (test : Machine → Bool) (rows : List Machine)
    → Distinct (ids rows)
    → All (λ r. contains r.id (ids (flatten (group_machines (filter test rows) []))) ≡ test r) rows
grouped_test test rows d = each rows (alone test any_machine rows d)
  where
    each :
        (some_rows : List Machine)
        → Alone test any_machine rows some_rows
        → All
            (λ r. contains r.id (ids (flatten (group_machines (filter test rows) []))) ≡ test r)
            some_rows
    each [] a = tt
    each (r ∷ some_rows) (k, a) = (
      ids-count r.id (flatten (group_machines (filter test rows) []))
          ∙ rw (count-group_machines any_machine r.id (filter test rows) [], k) (ground arith),
      each some_rows a,
    )

cleanup_lem :
    (action : ℕ) (rows : List Machine)
    → Distinct (ids rows)
    → cleanup_machines is_uninitialized action rows
      ≡ some (filter (λ m. not (never_made action m)) rows)
unfolding cleanup_machines group_machines
cleanup_lem action rows d =
    let mine = filter (is_allocated_to action) rows in
    let targeted = filter (λ m. is_uninitialized m.allocation_status) mine in
    let test = never_made action in
    let one : targeted ≡ filter test rows =
      filter-filter (is_allocated_to action) (λ m. is_uninitialized m.allocation_status) rows in
    let groups = group_machines (filter test rows) [] in
    let whole = others-test test (ids (flatten groups)) rows (grouped_test test rows d) in
    let counts : (x : ℕ)
        → count any_machine x (flatten groups) ≡ count any_machine x (filter test rows) + 0 =
      λ x. count-group_machines any_machine x (filter test rows) [] in
    elim (Bool-cases (is_empty mine)) [
      | inl e ↦ rw e (
          ap some (
            sym (others-none rows)
            ∙ subst
                (λ ms.
                  others (ids (flatten (group_machines ms []))) rows
                  ≡ filter (λ m. not (test m)) rows)
                (sym one
                  ∙ ap (filter (λ m. is_uninitialized m.allocation_status)) (empty_lem mine e))
                whole))
      | inr e ↦
          rw (e, one)
            (delete_groups_lem groups rows
                (λ x h. Fits-filter test rows x (omega (arith, h, counts x)))
                (λ x. omega (arith, counts x, Once-filter test rows d x))
              ∙ ap some whole)
    ]

recover-returned :
    (action : ℕ) (rows : List Machine)
    → Distinct (ids rows)
    → recover action rows ≡ some (returned action rows)
unfolding recover
recover-returned action rows d =
    let left = filter (λ m. not (never_made action m)) rows in
    rw (cleanup_lem action rows d) (
      deallocate_minion_machines_for_action-returned action left
        (Distinct-filter (λ m. not (never_made action m)) rows d)
      ∙ ap (λ ms. some (map (λ m. if is_allocated_to action m then given_back m else m) ms))
          (filter_twice (λ m. not (never_made action m)) rows))

-- When the allocation for an action fails, the machines that it has got so far are given back: those
-- that were never made are deleted, the others of the action are available again and belong to no
-- action, and all other rows stay as they were when the error came. The rows have different
-- identifiers then, and the database carries out the operations of the handler.
pub allocate_minion_machines-returned :
    (succeeds : ℕ → Bool) (uuid : ℕ → ℕ) (now : ℕ) (pools : List Pool) (transfer included : Bool)
    (action : Action) (db left : Database) (e : AllocationError)
    → run_machine_allocation succeeds uuid now pools transfer included action db ≡ raised (e, left)
    → Distinct (ids left.machines)
    → allocate_minion_machines succeeds uuid now pools transfer included action db
      ≡ failed e (some (returned action.id left.machines))
unfolding allocate_minion_machines
allocate_minion_machines-returned succeeds uuid now pools transfer included action db left e h d =
    ap (ending action.id) h ∙ ap (failed e) (recover-returned action.id left.machines d)
