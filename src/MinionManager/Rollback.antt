-- ===== src/MinionManager/Rollback.antt =====
-- The choice of machines is written to the database as a whole, or not at all.
use cloudshift.Prelude.{
  ℕ, ◌≡◌, refl, sym, ap, subst, ◌∙◌, Bool, true, false, some, List, [], ◌∷◌, ◌++◌, map, all,
  is_empty, contains, arith, Bool-cases, inl, inr, ◌⊎◌,
}
use mathlib.Core.List.{append-nil, map-append}
use cloudshift.MinionManager.Pools.{Machine}
use cloudshift.MinionManager.Capacity.{ids}
use cloudshift.MinionManager.Writes.{
  Database, Marks, reserved_for, made_available, give_status, set_statuses, run_operation,
  add_event, reserve_existing, add_machines, add_new, write_choice, delete_machines, undo,
  record_choice,
}
use cloudshift.MinionManager.Rows.{
  or_empty, new_rows, others, others-++, others_fresh, others-rows, attempt_lem, Works,
  run_operation-operations, delete_machines_lem, IsAdded, add_machines-IsAdded, ids-give_status,
  AreFree, release, untimed, released, released_after,
}

-- The chosen machines of the pool, marked for the action.
abbrev pub reserve : (now action : ℕ) (existing : List ℕ) → Machine → Machine
reserve now action existing = give_status existing (reserved_for now action)

empty_lem : (xs : List ℕ) → is_empty xs ≡ true → xs ≡ []
empty_lem [] h = refl
empty_lem (x ∷ xs) h = ground (arith, h)

nothing_given :
    (marks : Marks) (existing : List ℕ) (ms : List Machine)
    → is_empty existing ≡ true
    → (map (give_status existing marks) ms ≡ ms)
      × (all (λ id. contains id (ids ms)) existing ≡ true)
nothing_given marks [] [] h = (refl, refl)
nothing_given marks [] (m ∷ ms) h = (ap (λ rest. m ∷ rest) (nothing_given marks [] ms h).0, refl)
nothing_given marks (x ∷ xs) ms h = ground (arith, h)

-- Machines are given a status where all of them are there.
set_statuses_lem :
    (existing : List ℕ) (marks : Marks) (ms after : List Machine)
    → set_statuses existing marks ms ≡ some after
    → (after ≡ map (give_status existing marks) ms)
      × (all (λ id. contains id (ids ms)) existing ≡ true)
unfolding or_empty
set_statuses_lem existing marks ms after h =
    elim (Bool-cases (all (λ id. contains id (ids ms)) existing)) [
      | inl e ↦ (sym (ap or_empty (rw e at h)), e)
      | inr e ↦ ground (arith, rw e at h)
    ]

contains_later :
    (x : ℕ) (ms ns : List Machine) → contains x (ids ms) ≡ true → contains x (ids (ms ++ ns)) ≡ true
contains_later x [] ns h = ground (arith, h)
contains_later x (m ∷ ms) ns h = ground (arith, h, contains_later x ms ns)

all_later :
    (xs : List ℕ) (ms ns : List Machine)
    → all (λ id. contains id (ids ms)) xs ≡ true
    → all (λ id. contains id (ids (ms ++ ns))) xs ≡ true
all_later [] ms ns h = refl
all_later (x ∷ xs) ms ns h = ground (arith, h, contains_later x ms ns, all_later xs ms ns)

module _ (succeeds : ℕ → Bool) (now pool_id action : ℕ) (existing new : List ℕ) where
  add_event_lem : (db : Database) → (add_event succeeds db).1.machines ≡ db.machines
  add_event_lem db = elim (Bool-cases (succeeds db.operations)) [
    | inl e ↦ rw e refl
    | inr e ↦ rw e refl
  ]

  add_new-IsAdded :
      (db : Database)
      → IsAdded pool_id action new db.machines (add_new succeeds now pool_id action new db)
  unfolding add_new
  add_new-IsAdded db = elim (Bool-cases (is_empty new)) [
    | inl e ↦ rw e (record {
      there = sym (append-nil db.machines);
      asked = λ x h. ground (arith, h);
      whole = λ h. sym (empty_lem new e);
    })
    | inr e ↦
        let w = add_machines succeeds now pool_id action new db in
        let known = add_machines-IsAdded succeeds now pool_id action new db in
        elim (Bool-cases w.complete) [
          | inl f ↦
              rw (e, f)
                (record {
                  there = add_event_lem w.database ∙ known.there;
                  asked = known.asked;
                  whole = λ h. known.whole f;
                })
          | inr f ↦ rw (e, f) known
        ]
  ]

  -- The machines are marked, or the database is as it was.
  reserve_existing_lem :
      (db : Database)
      → (((reserve_existing succeeds now pool_id action existing db).1.machines
            ≡ map (reserve now action existing) db.machines)
          × (all (λ id. contains id (ids db.machines)) existing ≡ true))
        ⊎ (((reserve_existing succeeds now pool_id action existing db).0 ≡ false)
            × ((reserve_existing succeeds now pool_id action existing db).1.machines ≡ db.machines))
  reserve_existing_lem db =
      let mark = set_statuses existing (reserved_for now action) in
      let marked = (run_operation succeeds mark db).1 in
      elim (Bool-cases (is_empty existing)) [
        | inl e ↦
            let same = nothing_given (reserved_for now action) existing db.machines e in
            rw e (inl (sym same.0, same.1))
        | inr e ↦ elim (attempt_lem succeeds mark db) [
          | inl (done, h) ↦
              let all_there =
                set_statuses_lem existing (reserved_for now action) db.machines marked.machines h in
              rw (e, done) (inl (add_event_lem marked ∙ all_there.0, all_there.1))
          | inr (failed, same) ↦ rw (e, failed) (inr (failed, same))
        ]
      ]

  -- Undoing gives the old rows back where the chosen machines have been marked, and any of the new ones added.
  undo_marked :
      (added : List ℕ) (before : List Machine) (db : Database)
      → AreFree existing before
      → ((x : ℕ) → contains x added ≡ true → contains x (ids before) ≡ false)
      → db.machines ≡ map (reserve now action existing) before ++ new_rows pool_id action added
      → all (λ id. contains id (ids before)) existing ≡ true
      → Works succeeds db.operations
      → map untimed (undo succeeds existing added db).machines ≡ map untimed before
  unfolding undo
  undo_marked added before db free fresh h there works =
      let marked = map (reserve now action existing) before in
      let here : all (λ id. contains id (ids db.machines)) existing ≡ true =
        subst (λ ms. all (λ id. contains id (ids ms)) existing ≡ true) (sym h)
          (all_later existing marked (new_rows pool_id action added) (
            subst (λ xs. all (λ id. contains id xs) existing ≡ true)
              (sym (ids-give_status existing (reserved_for now action) before)) there)) in
      let operation = set_statuses existing made_available in
      let freed : (run_operation succeeds operation db).1.machines
          ≡ map (release existing) db.machines =
        rw (works db.operations (omega arith), here) refl in
      let next = (run_operation succeeds operation db).1 in
      let again = map (release existing) marked in
      let fresh_again : (x : ℕ) → contains x added ≡ true → contains x (ids again) ≡ false = λ x e.
        subst (λ xs. contains x xs ≡ false)
          (sym (
            ids-give_status existing made_available marked
            ∙ ids-give_status existing (reserved_for now action) before))
          (fresh x e) in
      ap (map untimed) (
        (delete_machines_lem succeeds added next
          (λ k le. works k (omega (arith, le, run_operation-operations succeeds operation db)))).0
        ∙ ap (others added) (
            freed
            ∙ ap (map (release existing)) h
            ∙ map-append (release existing) marked (new_rows pool_id action added))
        ∙ others-++ added (map (release existing) marked)
            (map (release existing) (new_rows pool_id action added))
        ∙ rw
            (
              others-rows pool_id action added added existing (λ x e. e),
              others_fresh added again fresh_again,
            )
            (append-nil again))
      ∙ released_after existing (reserved_for now action) before free

  undo_nothing :
      (db : Database)
      → AreFree existing db.machines
      → (undo succeeds existing [] db).machines ≡ db.machines
  unfolding undo delete_machines
  undo_nothing db free = elim (attempt_lem succeeds (set_statuses existing made_available) db) [
    | inl (done, h) ↦
        (set_statuses_lem existing made_available db.machines _ h).0
        ∙ released existing db.machines free
    | inr (failed, same) ↦ same
  ]

  -- The chosen machines were there and are marked, and new ones added, or nothing was written.
  pub write_choice_lem :
      (db : Database)
      → ((all (λ id. contains id (ids db.machines)) existing ≡ true)
          × IsAdded pool_id action new
              (map (reserve now action existing) db.machines)
              (write_choice succeeds now pool_id action existing new db))
        ⊎ (((write_choice succeeds now pool_id action existing new db).complete ≡ false)
            × ((write_choice succeeds now pool_id action existing new db).added ≡ [])
            × ((write_choice succeeds now pool_id action existing new db).database.machines
                ≡ db.machines))
  unfolding write_choice
  write_choice_lem db =
      let reserved = reserve_existing succeeds now pool_id action existing db in
      let marked = map (reserve now action existing) db.machines in
      elim (reserve_existing_lem db) [
        | inl (same, there) ↦ elim (Bool-cases reserved.0) [
          | inl e ↦ rw e (
              inl (
                there,
                subst
                    (λ ms.
                      IsAdded pool_id action new ms
                        (add_new succeeds now pool_id action new reserved.1))
                    same (add_new-IsAdded reserved.1),
              ))
          | inr e ↦ rw e (
              inl (
                there,
                record {
                  there = same ∙ sym (append-nil marked);
                  asked = λ x h. ground (arith, h);
                  whole = λ h. ground (arith, h);
                },
              ))
        ]
        | inr (failed, same) ↦ rw failed (inr (refl, refl, same))
      ]

  -- Writing the choice of machines for an action to the database is all or nothing. Where it
  -- succeeds, the chosen machines of the pool are reserved for the action and the new ones are
  -- added after them, uninitialized; where an operation fails, the rows are as they were before,
  -- but for the moments of use.  -- The chosen machines were available and allocated to no action, the new identifiers are of no
  -- machine, and the operations that are asked for after the one that failed are carried out.
  pub record_choice-all_or_nothing :
      (db : Database)
      → AreFree existing db.machines
      → ((x : ℕ) → contains x new ≡ true → contains x (ids db.machines) ≡ false)
      → Works succeeds
          (write_choice succeeds now pool_id action existing new db).database.operations
      → (((record_choice succeeds now pool_id action existing new db).0 ≡ true)
          × ((record_choice succeeds now pool_id action existing new db).1.machines
              ≡ map (reserve now action existing) db.machines ++ new_rows pool_id action new))
        ⊎ (((record_choice succeeds now pool_id action existing new db).0 ≡ false)
            × (map untimed (record_choice succeeds now pool_id action existing new db).1.machines
                ≡ map untimed db.machines))
  unfolding record_choice
  record_choice-all_or_nothing db free fresh works =
      let w = write_choice succeeds now pool_id action existing new db in
      elim (Bool-cases w.complete) [
        | inl e ↦ elim (write_choice_lem db) [
          | inl known ↦ rw e (
              inl (
                refl,
                subst
                    (λ xs.
                      w.database.machines
                      ≡ map (reserve now action existing) db.machines ++ new_rows pool_id action xs)
                    (known.1.whole e) known.1.there,
              ))
          | inr (failed, none_added, same) ↦ ground (arith, e, failed)
        ]
        | inr e ↦ elim (write_choice_lem db) [
          | inl known ↦ rw e (
              inr (
                refl,
                undo_marked w.added db.machines w.database free (λ x h. fresh x (known.1.asked x h))
                    known.1.there known.0 works,
              ))
          | inr (failed, none_added, same) ↦ rw e (
              inr (
                refl,
                ap (map untimed) (
                    ap (λ xs. (undo succeeds existing xs w.database).machines) none_added
                    ∙ undo_nothing w.database (subst (AreFree existing) (sym same) free)
                    ∙ same),
              ))
        ]
      ]
