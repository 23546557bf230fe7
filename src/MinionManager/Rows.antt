-- ===== src/MinionManager/Rows.antt =====
-- The rows of machines under the operations of the database, where it carries them out and where it
-- does not.
use cloudshift.Prelude.{
  ℕ, suc, ◌≤◌, ◌≡◌, refl, sym, ap, ◌∙◌, Bool, true, false, not, Option, none, some, List, [], ◌∷◌,
  ◌++◌, map, filter, contains, All, arith, Bool-cases, ==_refl, ==_iff, Option-cases, inl, inr, ◌⊎◌,
}
use mathlib.Core.List.{append-nil, append_assoc, map-append}
use cloudshift.MinionManager.Pools.{Machine, MachineStatus}
use cloudshift.MinionManager.Capacity.{ids}
use cloudshift.MinionManager.Writes.{
  Database, Marks, made_available, give_status, new_machine, add_machine, without, delete_machine,
  apply_operation, Written, run_operation, add_machines, delete_machines,
}

-- The new machines as rows, in the order in which they are added.
abbrev pub new_rows : (pool_id action : ℕ) (new : List ℕ) → List Machine
new_rows pool_id action [] = []
new_rows pool_id action (id ∷ new) =
    new_rows pool_id action new ++ new_machine pool_id action id ∷ []

abbrev pub others : List ℕ → List Machine → List Machine
others xs machines = filter (λ m. not (contains m.id xs)) machines

pub others-++ :
    (xs : List ℕ) (ms ns : List Machine) → others xs (ms ++ ns) ≡ others xs ms ++ others xs ns
others-++ xs [] ns = refl
others-++ xs (m ∷ ms) ns = ground (arith, others-++ xs ms ns)

pub others-none : (ms : List Machine) → others [] ms ≡ ms
others-none [] = refl
others-none (m ∷ ms) = ap (λ rest. m ∷ rest) (others-none ms)

without-others :
    (id : ℕ) (xs : List ℕ) (ms : List Machine) → without id (others xs ms) ≡ others (id ∷ xs) ms
without-others id xs [] = refl
without-others id xs (m ∷ ms) = ground (arith, without-others id xs ms)

without_absent : (id : ℕ) (ms : List Machine) → contains id (ids ms) ≡ false → without id ms ≡ ms
without_absent id [] h = refl
without_absent id (m ∷ ms) h =
    ground (arith, h, ==_iff m.id id, ==_iff id m.id, without_absent id ms)

pub others_fresh :
    (xs : List ℕ) (ms : List Machine)
    → ((x : ℕ) → contains x xs ≡ true → contains x (ids ms) ≡ false)
    → others xs ms ≡ ms
others_fresh xs [] h = refl
others_fresh xs (m ∷ ms) h =
    ground (arith, ==_refl m.id, h m.id, others_fresh xs ms (λ x e. ground (arith, h x e)))

-- An operation is carried out, or leaves the rows as they are.
pub attempt_lem :
    (succeeds : ℕ → Bool) (operation : List Machine → Option (List Machine)) (db : Database)
    → ((run_operation succeeds operation db).0 ≡ true)
        × (operation db.machines ≡ some (run_operation succeeds operation db).1.machines)
      ⊎ ((run_operation succeeds operation db).0 ≡ false)
        × ((run_operation succeeds operation db).1.machines ≡ db.machines)
attempt_lem succeeds operation db = elim (Bool-cases (succeeds db.operations)) [
  | inr e ↦ rw e (inr (refl, refl))
  | inl e ↦ elim (Option-cases (operation db.machines)) [
    | inl h ↦ rw (e, h) (inr (refl, refl))
    | inr (ms, h) ↦ rw (e, h) (inl (refl, refl))
  ]
]

-- The database carries out every operation that it is asked for after the first n.
abbrev pub Works : (succeeds : ℕ → Bool) → ℕ → Type 0
Works succeeds n = (k : ℕ) → n ≤ k → succeeds k ≡ true

pub run_operation-operations :
    (succeeds : ℕ → Bool) (operation : List Machine → Option (List Machine)) (db : Database)
    → (run_operation succeeds operation db).1.operations ≡ suc db.operations
run_operation-operations succeeds operation db = from _
  where
    from : (o : Option (List Machine)) → (apply_operation o db).1.operations ≡ suc db.operations
    from none = refl
    from (some ms) = refl

delete_lem :
    (succeeds : ℕ → Bool) (id : ℕ) (db : Database)
    → succeeds db.operations ≡ true
    → (run_operation succeeds (delete_machine id) db).1.machines ≡ without id db.machines
delete_lem succeeds id db h = elim (Bool-cases (contains id (ids db.machines))) [
  | inl e ↦ rw (h, e) refl
  | inr e ↦ rw (h, e) (sym (without_absent id db.machines e))
]

-- Deleting the rows one by one leaves the others.
pub delete_machines_lem :
    (succeeds : ℕ → Bool) (xs : List ℕ) (db : Database)
    → Works succeeds db.operations
    → ((delete_machines succeeds xs db).machines ≡ others xs db.machines)
      × (db.operations ≤ (delete_machines succeeds xs db).operations)
unfolding delete_machines
delete_machines_lem succeeds [] db works = (sym (others-none db.machines), omega arith)
delete_machines_lem succeeds (id ∷ xs) db works =
    let earlier = delete_machines_lem succeeds xs db works in
    let last = delete_machines succeeds xs db in
    (
      delete_lem succeeds id last (works last.operations earlier.1)
          ∙ ap (without id) earlier.0
          ∙ without-others id xs db.machines,
      omega (arith, earlier.1, run_operation-operations succeeds (delete_machine id) last),
    )

unfoldable pub or_empty : Option (List Machine) → List Machine
or_empty none = []
or_empty (some ms) = ms

add_machine_lem :
    (m : Machine) (ms after : List Machine) → add_machine m ms ≡ some after → after ≡ ms ++ m ∷ []
unfolding or_empty
add_machine_lem m ms after h = elim (Bool-cases (contains m.id (ids ms))) [
  | inl e ↦ ground (arith, rw e at h)
  | inr e ↦ sym (ap or_empty (rw e at h))
]

-- What adding rows leaves: the rows of the machines that are recorded as added, and of these all
-- where it is complete.
pub record IsAdded (pool_id action : ℕ) (new : List ℕ) (before : List Machine) (w : Written)
    : Type 0 where
  pub there : w.database.machines ≡ before ++ new_rows pool_id action w.added
  pub asked : (x : ℕ) → contains x w.added ≡ true → contains x new ≡ true
  pub whole : w.complete ≡ true → w.added ≡ new

pub add_machines-IsAdded :
    (succeeds : ℕ → Bool) (now pool_id action : ℕ) (new : List ℕ) (db : Database)
    → IsAdded pool_id action new db.machines (add_machines succeeds now pool_id action new db)
unfolding add_machines
add_machines-IsAdded succeeds now pool_id action [] db = record {
  there = sym (append-nil db.machines);
  asked = λ x h. h;
  whole = λ h. refl;
}
add_machines-IsAdded succeeds now pool_id action (id ∷ new) db =
    let earlier = add_machines succeeds now pool_id action new db in
    let known = add_machines-IsAdded succeeds now pool_id action new db in
    elim (Bool-cases earlier.complete) [
      | inr e ↦ rw e (record {
        there = known.there;
        asked = λ x h. ground (arith, known.asked x h);
        whole = λ h. ground (arith, h, e);
      })
      | inl e ↦
          elim (attempt_lem succeeds (add_machine (new_machine pool_id action id))
            earlier.database) [
              | inl (done, h) ↦
                  rw (e, done)
                    (record {
                      there =
                          add_machine_lem (new_machine pool_id action id) earlier.database.machines
                            _ h
                          ∙ ap (λ ms. ms ++ new_machine pool_id action id ∷ []) known.there
                          ∙ append_assoc db.machines (new_rows pool_id action earlier.added)
                              (new_machine pool_id action id ∷ []);
                      asked = λ x h. ground (arith, known.asked x);
                      whole = λ h. ap (λ xs. id ∷ xs) (known.whole e);
                    })
              | inr (failed, same) ↦
                  rw (e, failed)
                    (record {
                      there = same ∙ known.there;
                      asked = λ x h. ground (arith, known.asked x h);
                      whole = λ h. ground (arith, h);
                    })
            ]
    ]

pub id-give_status :
    (xs : List ℕ) (marks : Marks) (m : Machine) → (give_status xs marks m).id ≡ m.id
id-give_status xs marks m = ground arith

-- Giving a status keeps the identifiers.
pub ids-give_status :
    (xs : List ℕ) (marks : Marks) (ms : List Machine) → ids (map (give_status xs marks) ms) ≡ ids ms
ids-give_status xs marks [] = refl
ids-give_status xs marks (m ∷ ms) = ground (arith, ids-give_status xs marks ms)

-- Machines with these identifiers are available, and allocated to no action.
abbrev pub AreFree : List ℕ → List Machine → Type 0
AreFree xs ms =
    All
      (λ m.
        contains m.id xs ≡ true
        → (m.allocation_status ≡ MachineStatus.available) × (m.allocated_action ≡ none))
      ms

abbrev pub release : List ℕ → Machine → Machine
release xs = give_status xs made_available

-- The row without its moment of use.
abbrev pub untimed : Machine → Machine
untimed m = record m { last_used_at = none }

free_again :
    (xs : List ℕ) (m : Machine)
    → (contains m.id xs ≡ true
        → (m.allocation_status ≡ MachineStatus.available) × (m.allocated_action ≡ none))
    → release xs m ≡ m
free_again xs m h = elim (Bool-cases (contains m.id xs)) [
  | inl e ↦ rw e (rw (sym (h e).0, sym (h e).1) refl)
  | inr e ↦ rw e refl
]

pub released : (xs : List ℕ) (ms : List Machine) → AreFree xs ms → map (release xs) ms ≡ ms
released xs [] free = refl
released xs (m ∷ ms) (one, free) = rw (free_again xs m one, released xs ms free) refl

release-give :
    (xs : List ℕ) (marks : Marks) (m : Machine)
    → untimed (release xs (give_status xs marks m)) ≡ untimed (release xs m)
release-give xs marks m = elim (Bool-cases (contains m.id xs)) [
  | inl e ↦ rw e (rw e refl)
  | inr e ↦ rw e (rw e refl)
]

pub released_after :
    (xs : List ℕ) (marks : Marks) (ms : List Machine)
    → AreFree xs ms
    → map untimed (map (release xs) (map (give_status xs marks) ms)) ≡ map untimed ms
released_after xs marks [] free = refl
released_after xs marks (m ∷ ms) (one, free) =
    rw (release-give xs marks m, free_again xs m one, released_after xs marks ms free) refl

-- The new machines are gone when the added rows are taken out.
pub others-rows :
    (pool_id action : ℕ) (xs ys existing : List ℕ)
    → ((x : ℕ) → contains x xs ≡ true → contains x ys ≡ true)
    → others ys (map (release existing) (new_rows pool_id action xs)) ≡ []
others-rows pool_id action [] ys existing h = refl
others-rows pool_id action (x ∷ xs) ys existing h =
    let row = release existing (new_machine pool_id action x) in
    let earlier = map (release existing) (new_rows pool_id action xs) in
    rw
      (map-append (release existing) (new_rows pool_id action xs)
        (new_machine pool_id action x ∷ []))
      (others-++ ys earlier (row ∷ [])
        ∙ rw (others-rows pool_id action xs ys existing (λ z e. h z (ground (arith, e)))) (
            rw
              (
                id-give_status existing made_available (new_machine pool_id action x),
                h x (ground (arith, ==_refl x)),
              )
              refl))
