-- ===== src/MinionManager/Released.antt =====
-- The rows that are left when the machines of pools are released one pool after the other.
use cloudshift.Prelude.{
  ℕ, ◌+◌, ◌≤◌, ◌≡◌, refl, sym, ap, subst, ◌∙◌, Bool, true, false, ◌&&◌, ◌||◌, some, List, [], ◌∷◌,
  ◌++◌, map, all, contains, ◌==◌, if◌then◌else◌, arith, Bool-cases, ==_iff, ==_refl, inl, inr,
}
use mathlib.Core.List.{append-nil, append_assoc}
use cloudshift.MinionManager.Pools.{Machine}
use cloudshift.MinionManager.Capacity.{ids}
use cloudshift.MinionManager.Writes.{without}
use cloudshift.MinionManager.Rows.{others, others-none, release}
use cloudshift.MinionManager.Release.{is_uninitialized, release_pool}

-- How many machines of the list have the identifier and satisfy the test.
abbrev pub count : (Machine → Bool) → ℕ → List Machine → ℕ
count p x [] = 0
count p x (m ∷ ms) = (if p m && m.id == x then 1 else 0) + count p x ms

abbrev pub any_machine : Machine → Bool
any_machine m = true

-- The identifiers of the machines that are deleted, and of those that become available.
abbrev pub gone : List Machine → List ℕ
gone [] = []
gone (m ∷ ms) =
    let rest = gone ms in if is_uninitialized m.allocation_status then m.id ∷ rest else rest

abbrev pub kept : List Machine → List ℕ
kept [] = []
kept (m ∷ ms) =
    let rest = kept ms in if is_uninitialized m.allocation_status then rest else m.id ∷ rest

-- The rows after the release.
abbrev pub released_rows : (freed deleted : List ℕ) → List Machine → List Machine
released_rows freed deleted rows = map (release freed) (others deleted rows)

abbrev pub Fits : List Machine → List Machine → Type 0
Fits ms rows = (x : ℕ) → 1 ≤ count any_machine x ms → contains x (ids rows) ≡ true

abbrev pub Once : List Machine → Type 0
Once ms = (x : ℕ) → count any_machine x ms ≤ 1

-- The noted machines are there, and are not among those still to be released.
pub record Noted (noted : List ℕ) (ms rows : List Machine) : Type 0 where
  pub there : (x : ℕ) → contains x noted ≡ true → contains x (ids rows) ≡ true
  pub apart : (x : ℕ) → contains x noted ≡ true → count any_machine x ms ≡ 0

all_there :
    (noted : List ℕ) (rows : List Machine)
    → ((x : ℕ) → contains x noted ≡ true → contains x (ids rows) ≡ true)
    → all (λ id. contains id (ids rows)) noted ≡ true
all_there [] rows h = refl
all_there (x ∷ noted) rows h =
    rw (h x (ground (arith, ==_refl x)), all_there noted rows (λ y e. h y (ground (arith, e)))) refl

contains-without :
    (x id : ℕ) (rows : List Machine)
    → (x == id) ≡ false
    → contains x (ids rows) ≡ true
    → contains x (ids (without id rows)) ≡ true
contains-without x id [] ne h = ground (arith, h)
contains-without x id (m ∷ rows) ne h = elim (Bool-cases (m.id == id)) [
  | inl e ↦ rw e (
      contains-without x id rows ne
        (ground (arith, h, ne, ==_iff m.id id, ==_iff x m.id, ==_iff x id, e)))
  | inr e ↦ rw e (ground (arith, h, contains-without x id rows ne))
]

pub others-without :
    (id : ℕ) (xs : List ℕ) (rows : List Machine)
    → others xs (without id rows) ≡ others (id ∷ xs) rows
others-without id xs [] = refl
others-without id xs (m ∷ rows) = ground (arith, others-without id xs rows)

pub contains-append :
    (x : ℕ) (xs ys : List ℕ) → contains x (xs ++ ys) ≡ (contains x xs || contains x ys)
contains-append x [] ys = refl
contains-append x (z ∷ xs) ys = ground (arith, contains-append x xs ys)

-- What is left of the conditions after the first machine.
later_apart :
    (m : Machine) (ms : List Machine) (x : ℕ)
    → Once (m ∷ ms)
    → 1 ≤ count any_machine x ms
    → (x == m.id) ≡ false
later_apart m ms x once h = ground (arith, once x, h, ==_iff m.id x, ==_iff x m.id)

pub Once-later : (m : Machine) (ms : List Machine) → Once (m ∷ ms) → Once ms
Once-later m ms once x = ground (arith, once x)

Fits-later : (m : Machine) (ms rows : List Machine) → Fits (m ∷ ms) rows → Fits ms rows
Fits-later m ms rows fits x h = fits x (ground (arith, h))

pub Fits-without :
    (m : Machine) (ms rows : List Machine)
    → Once (m ∷ ms)
    → Fits (m ∷ ms) rows
    → Fits ms (without m.id rows)
Fits-without m ms rows once fits x h =
    contains-without x m.id rows (later_apart m ms x once h) (Fits-later m ms rows fits x h)

pub first_there :
    (m : Machine) (ms rows : List Machine) → Fits (m ∷ ms) rows → contains m.id (ids rows) ≡ true
first_there m ms rows fits = fits m.id (ground (arith, ==_refl m.id))

Noted-without :
    (noted : List ℕ) (m : Machine) (ms rows : List Machine)
    → Noted noted (m ∷ ms) rows
    → Noted noted ms (without m.id rows)
Noted-without noted m ms rows n = record {
  there = λ x h.
      contains-without x m.id rows (ground (arith, n.apart x h, ==_iff m.id x, ==_iff x m.id))
        (n.there x h);
  apart = λ x h. ground (arith, n.apart x h);
}

Noted-more :
    (noted : List ℕ) (m : Machine) (ms rows : List Machine)
    → Once (m ∷ ms)
    → contains m.id (ids rows) ≡ true
    → Noted noted (m ∷ ms) rows
    → Noted (noted ++ m.id ∷ []) ms rows
Noted-more noted m ms rows once here n = record {
  there = λ x h. elim (Bool-cases (contains x noted)) [
    | inl e ↦ n.there x e
    | inr e ↦
        subst (λ y. contains y (ids rows) ≡ true)
          (sym
            ((==_iff x m.id).0 (ground (arith, rw (contains-append x noted (m.id ∷ [])) at h, e))))
          here
  ];
  apart = λ x h. elim (Bool-cases (contains x noted)) [
    | inl e ↦ ground (arith, n.apart x e)
    | inr e ↦ ground (
      arith,
      once x,
      (==_iff x m.id).0 (ground (arith, rw (contains-append x noted (m.id ∷ [])) at h, e)),
      ==_iff m.id x,
    )
  ];
}

pub release_pool_lem :
    (ms : List Machine) (noted : List ℕ) (rows : List Machine)
    → Fits ms rows
    → Once ms
    → Noted noted ms rows
    → release_pool ms noted rows ≡ some (released_rows (noted ++ kept ms) (gone ms) rows)
unfolding release_pool
release_pool_lem [] noted rows fits once n =
    rw (all_there noted rows n.there, append-nil noted, others-none rows) refl
release_pool_lem (m ∷ ms) noted rows fits once n =
    elim (Bool-cases (is_uninitialized m.allocation_status)) [
      | inl e ↦ rw e (
          rw (first_there m ms rows fits) (
            release_pool_lem ms noted (without m.id rows) (Fits-without m ms rows once fits)
              (Once-later m ms once) (Noted-without noted m ms rows n)
            ∙ ap (λ r. some (map (release (noted ++ kept ms)) r))
                (others-without m.id (gone ms) rows)))
      | inr e ↦ rw e (
          release_pool_lem ms (noted ++ m.id ∷ []) rows (Fits-later m ms rows fits)
            (Once-later m ms once) (Noted-more noted m ms rows once (first_there m ms rows fits) n)
          ∙ ap (λ xs. some (released_rows xs (gone ms) rows))
              (append_assoc noted (m.id ∷ []) (kept ms)))
    ]
