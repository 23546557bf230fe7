-- ===== src/MinionManager/Deallocated.antt =====
-- All machines of an action are given back, whatever pools they belong to.
use cloudshift.Prelude.{
  ℕ, ◌+◌, ◌≡◌, refl, sym, ap, subst, ◌∙◌, Bool, true, false, Option, none, some, List, [], ◌∷◌,
  ◌++◌, contains, ◌==◌, arith, Bool-cases, ==_iff, inl, inr, Dict, lookup, insert,
}
use cloudshift.MinionManager.Pools.{Machine}
use cloudshift.MinionManager.Capacity.{ids}
use cloudshift.MinionManager.Writes.{made_available}
use cloudshift.MinionManager.Rows.{others, id-give_status, ids-give_status, release}
use cloudshift.MinionManager.Release.{with_machine, group_machines, release_pools}
use cloudshift.MinionManager.Released.{
  count, any_machine, gone, kept, released_rows, Fits, Once, Noted, contains-append,
  release_pool_lem,
}

abbrev pub flatten : Dict (List Machine) → List Machine
flatten [] = []
flatten ((pool_id, ms) ∷ groups) = ms ++ flatten groups

pub count-append :
    (p : Machine → Bool) (x : ℕ) (ms ns : List Machine)
    → count p x (ms ++ ns) ≡ count p x ms + count p x ns
count-append p x [] ns = omega arith
count-append p x (m ∷ ms) ns = omega (arith, count-append p x ms ns)

gone-append : (ms ns : List Machine) → gone (ms ++ ns) ≡ gone ms ++ gone ns
gone-append [] ns = refl
gone-append (m ∷ ms) ns = ground (arith, gone-append ms ns)

kept-append : (ms ns : List Machine) → kept (ms ++ ns) ≡ kept ms ++ kept ns
kept-append [] ns = refl
kept-append (m ∷ ms) ns = ground (arith, kept-append ms ns)

not_gone : (x : ℕ) (ms : List Machine) → count any_machine x ms ≡ 0 → contains x (gone ms) ≡ false
not_gone x [] h = refl
not_gone x (m ∷ ms) h = ground (arith, h, not_gone x ms, ==_iff m.id x, ==_iff x m.id)

pub contains-others :
    (x : ℕ) (xs : List ℕ) (rows : List Machine)
    → contains x xs ≡ false
    → contains x (ids rows) ≡ true
    → contains x (ids (others xs rows)) ≡ true
contains-others x xs [] h k = ground (arith, k)
contains-others x xs (m ∷ rows) h k = elim (Bool-cases (x == m.id)) [
  | inl e ↦ ground (arith, e, subst (λ y. contains y xs ≡ false) ((==_iff x m.id).0 e) h)
  | inr e ↦ ground (arith, e, k, contains-others x xs rows h)
]

pub released_none : (rows : List Machine) → released_rows [] [] rows ≡ rows
released_none [] = refl
released_none (m ∷ rows) = ap (λ rest. m ∷ rest) (released_none rows)

release_twice : (xs ys : List ℕ) (m : Machine) → release ys (release xs m) ≡ release (xs ++ ys) m
release_twice xs ys m = rw (contains-append m.id xs ys) (elim (Bool-cases (contains m.id xs)) [
  | inl e ↦ rw e (elim (Bool-cases (contains m.id ys)) [ inl f ↦ rw f refl | inr f ↦ rw f refl ])
  | inr e ↦ rw e refl
])

released_twice :
    (k1 d1 k2 d2 : List ℕ) (rows : List Machine)
    → released_rows k2 d2 (released_rows k1 d1 rows) ≡ released_rows (k1 ++ k2) (d1 ++ d2) rows
released_twice k1 d1 k2 d2 [] = refl
released_twice k1 d1 k2 d2 (m ∷ rows) = elim (Bool-cases (contains m.id d1)) [
  | inl e ↦ rw (contains-append m.id d1 d2, e) (released_twice k1 d1 k2 d2 rows)
  | inr e ↦
      rw (contains-append m.id d1 d2, e, id-give_status k1 made_available m)
        (elim (Bool-cases (contains m.id d2)) [
          | inl g ↦ rw g (released_twice k1 d1 k2 d2 rows)
          | inr g ↦ rw g (rw (release_twice k1 k2 m, released_twice k1 d1 k2 d2 rows) refl)
        ])
]

pub release_pools_lem :
    (groups : Dict (List Machine)) (rows : List Machine)
    → Fits (flatten groups) rows
    → Once (flatten groups)
    → release_pools groups rows
      ≡ some (released_rows (kept (flatten groups)) (gone (flatten groups)) rows)
unfolding release_pools
release_pools_lem [] rows fits once = ap some (sym (released_none rows))
release_pools_lem ((p, ms) ∷ groups) rows fits once =
    let rest = flatten groups in
    let first = released_rows (kept ms) (gone ms) rows in
    let fits_first : Fits ms rows =
      λ x h. fits x (omega (arith, h, count-append any_machine x ms rest)) in
    let once_first : Once ms = λ x. omega (arith, once x, count-append any_machine x ms rest) in
    let noted : Noted [] ms rows = record {
      there = λ x h. ground (arith, h);
      apart = λ x h. ground (arith, h);
    } in
    let fits_rest : Fits rest first = λ x h.
      subst (λ xs. contains x xs ≡ true)
        (sym (ids-give_status (kept ms) made_available (others (gone ms) rows)))
        (contains-others x (gone ms) rows
          (not_gone x ms (omega (arith, once x, h, count-append any_machine x ms rest)))
          (fits x (omega (arith, h, count-append any_machine x ms rest)))) in
    let once_rest : Once rest = λ x. omega (arith, once x, count-append any_machine x ms rest) in
    rw (release_pool_lem ms [] rows fits_first once_first noted) (
      release_pools_lem groups first fits_rest once_rest
      ∙ ap some (released_twice (kept ms) (gone ms) (kept rest) (gone rest) rows)
      ∙ rw (kept-append ms rest, gone-append ms rest) refl)

abbrev machines_in : Option (List Machine) → List Machine
machines_in none = []
machines_in (some ms) = ms

count-insert :
    (p : Machine → Bool) (x k : ℕ) (value : List Machine) (groups : Dict (List Machine))
    → count p x (flatten (insert k value groups)) + count p x (machines_in (lookup k groups))
      ≡ count p x value + count p x (flatten groups)
unfolding lookup insert
count-insert p x k value [] = omega (arith, count-append p x value [])
count-insert p x k value ((q, ms) ∷ groups) = elim (Bool-cases (q == k)) [
  | inl e ↦
      rw e (
        omega
          (arith, count-append p x value (flatten groups), count-append p x ms (flatten groups)))
  | inr e ↦ rw e (
      omega (
        arith,
        count-insert p x k value groups,
        count-append p x ms (flatten (insert k value groups)),
        count-append p x ms (flatten groups),
      ))
]

count-with_machine :
    (p : Machine → Bool) (x : ℕ) (o : Option (List Machine)) (m : Machine)
    → count p x (with_machine o m) ≡ count p x (m ∷ []) + count p x (machines_in o)
count-with_machine p x none m = omega arith
count-with_machine p x (some ms) m = omega (arith, count-append p x ms (m ∷ []))

-- Grouping keeps the machines.
pub count-group_machines :
    (p : Machine → Bool) (x : ℕ) (ms : List Machine) (groups : Dict (List Machine))
    → count p x (flatten (group_machines ms groups)) ≡ count p x ms + count p x (flatten groups)
unfolding group_machines
count-group_machines p x [] groups = omega arith
count-group_machines p x (m ∷ ms) groups =
    let value = with_machine (lookup m.pool_id groups) m in
    omega (
      arith,
      count-group_machines p x ms (insert m.pool_id value groups),
      count-insert p x m.pool_id value groups,
      count-with_machine p x (lookup m.pool_id groups) m,
    )
