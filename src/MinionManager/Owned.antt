-- ===== src/MinionManager/Owned.antt =====
-- The rows of machines that an action has in a pool: `record_choice` makes them, and a later choice for
-- the same action keeps them.
use cloudshift.Prelude.{
  ℕ, ◌≡◌, refl, sym, subst, Bool, true, false, ◌&&◌, ◌||◌, List, [], ◌∷◌, ◌++◌, map, filter,
  contains, ◌==◌, arith, Bool-cases, ==_iff, ==_refl, inl, inr,
}
use cloudshift.MinionManager.Pools.{Machine}
use cloudshift.MinionManager.Capacity.{ids}
use cloudshift.MinionManager.Writes.{Database, new_machine, write_choice, record_choice}
use cloudshift.MinionManager.Rows.{new_rows}
use cloudshift.MinionManager.Rollback.{reserve, write_choice_lem}
use cloudshift.MinionManager.Assign.{is_some_id}

-- The row with this identifier, of a pool that passes the test, allocated to the action.
abbrev pub is_owned_row : (may : ℕ → Bool) (action id : ℕ) → Machine → Bool
is_owned_row may action id m =
    (m.id == id) && (may m.pool_id && is_some_id m.allocated_action action)

-- There is such a row.
unfoldable pub is_owned : (may : ℕ → Bool) (action : ℕ) → List Machine → (id : ℕ) → Bool
is_owned may action [] id = false
is_owned may action (m ∷ machines) id =
    is_owned_row may action id m || is_owned may action machines id

-- A test that allows more pools.
pub is_owned-weaken :
    (may allowed : ℕ → Bool) (action id : ℕ) (machines : List Machine)
    → ((q : ℕ) → may q ≡ true → allowed q ≡ true)
    → is_owned may action machines id ≡ true
    → is_owned allowed action machines id ≡ true
unfolding is_owned
is_owned-weaken may allowed action id [] more h = h
is_owned-weaken may allowed action id (m ∷ machines) more h =
    let rest = is_owned-weaken may allowed action id machines more in
    ground (arith, h, more m.pool_id, rest)

pub is_owned-before :
    (may : ℕ → Bool) (action id : ℕ) (ms ns : List Machine)
    → is_owned may action ms id ≡ true
    → is_owned may action (ms ++ ns) id ≡ true
unfolding is_owned
is_owned-before may action id [] ns h = ground (arith, h)
is_owned-before may action id (m ∷ ms) ns h = ground (arith, h, is_owned-before may action id ms ns)

pub is_owned-after :
    (may : ℕ → Bool) (action id : ℕ) (ms ns : List Machine)
    → is_owned may action ns id ≡ true
    → is_owned may action (ms ++ ns) id ≡ true
unfolding is_owned
is_owned-after may action id [] ns h = h
is_owned-after may action id (m ∷ ms) ns h = ground (arith, h, is_owned-after may action id ms ns)

-- A row that is reserved for the action anew stays as it is.
row-reserve :
    (may : ℕ → Bool) (now action id : ℕ) (xs : List ℕ) (m : Machine)
    → is_owned_row may action id m ≡ true
    → is_owned_row may action id (reserve now action xs m) ≡ true
row-reserve may now action id xs m h = elim (Bool-cases (contains m.id xs)) [
  | inl e ↦ rw e (ground (arith, h, ==_refl action))
  | inr e ↦ rw e h
]

pub is_owned-reserve :
    (may : ℕ → Bool) (now action id : ℕ) (xs : List ℕ) (ms : List Machine)
    → is_owned may action ms id ≡ true
    → is_owned may action (map (reserve now action xs) ms) id ≡ true
unfolding is_owned
is_owned-reserve may now action id xs [] h = h
is_owned-reserve may now action id xs (m ∷ ms) h =
    elim (Bool-cases (is_owned_row may action id m)) [
      | inl e ↦ rw (row-reserve may now action id xs m e) refl
      | inr e ↦
          let rest = is_owned-reserve may now action id xs ms (rw e at h) in ground (arith, rest)
    ]

row-reserved :
    (may : ℕ → Bool) (now action id : ℕ) (xs : List ℕ) (m : Machine)
    → may m.pool_id ≡ true
    → contains id xs ≡ true
    → (m.id == id) ≡ true
    → is_owned_row may action id (reserve now action xs m) ≡ true
row-reserved may now action id xs m allowed h same =
    let there : contains m.id xs ≡ true =
      subst (λ x. contains x xs ≡ true) (sym ((==_iff m.id id).0 same)) h in
    rw (there, same, allowed, ==_refl action) refl

-- A machine of the pool that is chosen is allocated to the action.
pub is_owned-chosen :
    (may : ℕ → Bool) (now action pool_id id : ℕ) (xs : List ℕ) (ms : List Machine)
    → may pool_id ≡ true
    → contains id xs ≡ true
    → contains id (ids (filter (λ m. m.pool_id == pool_id) ms)) ≡ true
    → is_owned may action (map (reserve now action xs) ms) id ≡ true
unfolding is_owned
is_owned-chosen may now action pool_id id xs [] allowed h there = ground (arith, there)
is_owned-chosen may now action pool_id id xs (m ∷ ms) allowed h there =
    let rest = is_owned-chosen may now action pool_id id xs ms allowed h in
    elim (Bool-cases (m.pool_id == pool_id)) [
      | inr e ↦ let later = rest (rw e at there) in ground (arith, later)
      | inl e ↦ elim (Bool-cases (m.id == id)) [
        | inr f ↦
            let later = rest (ground (arith, rw e at there, ==_iff m.id id, ==_iff id m.id, f)) in
            ground (arith, later)
        | inl f ↦
            let ok : may m.pool_id ≡ true =
              subst (λ q. may q ≡ true) (sym ((==_iff m.pool_id pool_id).0 e)) allowed in
            rw (row-reserved may now action id xs m ok h f) refl
      ]
    ]

-- So is a new one.
pub is_owned-new :
    (may : ℕ → Bool) (action pool_id id : ℕ) (new : List ℕ)
    → may pool_id ≡ true
    → contains id new ≡ true
    → is_owned may action (new_rows pool_id action new) id ≡ true
unfolding is_owned
is_owned-new may action pool_id id [] allowed h = ground (arith, h)
is_owned-new may action pool_id id (x ∷ new) allowed h = elim (Bool-cases (id == x)) [
  | inr e ↦
      is_owned-before may action id (new_rows pool_id action new) _
        (is_owned-new may action pool_id id new allowed (ground (arith, h, e)))
  | inl e ↦
      is_owned-after may action id (new_rows pool_id action new) (new_machine pool_id action x ∷ [])
        (ground (arith, e, ==_iff id x, ==_iff x id, allowed, ==_refl action))
]

-- The rows after a choice has been written.
pub record_choice-done :
    (succeeds : ℕ → Bool) (now pool_id action : ℕ) (existing new : List ℕ) (db : Database)
    → (record_choice succeeds now pool_id action existing new db).0 ≡ true
    → (record_choice succeeds now pool_id action existing new db).1.machines
      ≡ map (reserve now action existing) db.machines ++ new_rows pool_id action new
unfolding record_choice
record_choice-done succeeds now pool_id action existing new db h =
    let w = write_choice succeeds now pool_id action existing new db in
    elim (Bool-cases w.complete) [
      | inr e ↦ ground (arith, rw e at h)
      | inl e ↦ elim (write_choice_lem succeeds now pool_id action existing new db) [
        | inr (failed, none_added, same) ↦ ground (arith, e, failed)
        | inl known ↦ rw e (
            subst
              (λ xs.
                w.database.machines
                ≡ map (reserve now action existing) db.machines ++ new_rows pool_id action xs)
              (known.1.whole e) known.1.there)
      ]
    ]
