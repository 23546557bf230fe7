-- ===== src/MinionManager/Groups.antt =====
-- The groups of instances by the pools that they are mapped to.
use cloudshift.Prelude.{
  ℕ, suc, ◌+◌, ◌≤◌, ◌≡◌, refl, sym, ap, subst, ◌∙◌, true, ◌&&◌, Option, none, some, List, [], ◌∷◌,
  ◌++◌, length, filter, contains, All, ◌==◌, if◌then◌else◌, arith, Bool-cases, ==_refl, ==_iff, inl,
  inr, Dict, lookup, insert, lookup-insert,
}
use cloudshift.MinionManager.Checks.{with_instance, group_by_pool}

-- How many instances of the action are mapped to the pool.
abbrev pub mapped : (instances : List ℕ) (mappings : Dict ℕ) (pool_id : ℕ) → ℕ
mapped instances mappings pool_id =
    length (filter (λ entry. contains entry.0 instances && entry.1 == pool_id) mappings)

abbrev pub members : Option (List ℕ) → List ℕ
members none = []
members (some xs) = xs

length-with_instance :
    (o : Option (List ℕ)) (i : ℕ) → length (with_instance o i) ≡ suc (length (members o))
length-with_instance none i = refl
length-with_instance (some xs) i = length-last xs i
  where
    length-last : (xs : List ℕ) (i : ℕ) → length (xs ++ i ∷ []) ≡ suc (length xs)
    length-last [] i = refl
    length-last (x ∷ xs) i = ap suc (length-last xs i)

length-insert :
    (groups : Dict (List ℕ)) (q i p : ℕ)
    → length (members (lookup p (insert q (with_instance (lookup q groups) i) groups)))
      ≡ (if q == p then 1 else 0) + length (members (lookup p groups))
length-insert groups q i p =
    rw (lookup-insert groups q (with_instance (lookup q groups) i) p) (elim (Bool-cases (q == p)) [
      | inl e ↦ rw e (
          length-with_instance (lookup q groups) i
          ∙ subst
              (λ r.
                suc (length (members (lookup q groups))) ≡ 1 + length (members (lookup r groups)))
              ((==_iff q p).0 e) (omega arith))
      | inr e ↦ rw e (omega arith)
    ])

mapped_first :
    (instances : List ℕ) (mappings : Dict ℕ) (i q p : ℕ)
    → contains i instances ≡ true
    → mapped instances ((i, q) ∷ mappings) p
      ≡ (if q == p then 1 else 0) + mapped instances mappings p
mapped_first instances mappings i q p h = elim (Bool-cases (q == p)) [
  | inl e ↦ rw (h, e) (omega arith)
  | inr e ↦ rw (h, e) (omega arith)
]

-- The groups hold as many instances of a pool as are mapped to it.
length-group_by_pool :
    (instances : List ℕ) (mappings : Dict ℕ) (groups : Dict (List ℕ)) (p : ℕ)
    → length (members (lookup p (group_by_pool instances mappings groups)))
      ≡ mapped instances mappings p + length (members (lookup p groups))
unfolding group_by_pool
length-group_by_pool instances [] groups p = omega arith
length-group_by_pool instances ((i, q) ∷ mappings) groups p =
    elim (Bool-cases (contains i instances)) [
      | inr e ↦ rw e (length-group_by_pool instances mappings groups p)
      | inl e ↦
          let next = insert q (with_instance (lookup q groups) i) groups in
          let rest = length-group_by_pool instances mappings next p in
          let first = mapped_first instances mappings i q p e in
          let inserted = length-insert groups q i p in
          subst
            (λ b.
              length
                (members (lookup p (group_by_pool instances mappings (if b then next else groups))))
              ≡ mapped instances ((i, q) ∷ mappings) p + length (members (lookup p groups)))
            (sym e) (omega (arith, rest, first, inserted))
    ]

pub length-grouped :
    (instances : List ℕ) (mappings : Dict ℕ) (p : ℕ)
    → length (members (lookup p (group_by_pool instances mappings [])))
      ≡ mapped instances mappings p
unfolding lookup
length-grouped instances mappings p = length-group_by_pool instances mappings [] p ∙ omega arith

pub All-lookup :
    (P : ℕ × List ℕ → Type 0) (groups : Dict (List ℕ)) (p : ℕ) (xs : List ℕ)
    → All P groups
    → lookup p groups ≡ some xs
    → P (p, xs)
unfolding lookup
All-lookup P [] p xs a h = ground (arith, h)
All-lookup P ((q, ys) ∷ groups) p xs (here, a) h = elim (Bool-cases (q == p)) [
  | inl e ↦
      subst (λ r. P (r, xs)) ((==_iff q p).0 e)
        (subst (λ zs. P (q, zs)) (ap members (rw e at h)) here)
  | inr e ↦ All-lookup P groups p xs a (rw e at h)
]

pub All-weaken :
    {A : Type 0} (P Q : A → Type 0) (xs : List A) → ((x : A) → P x → Q x) → All P xs → All Q xs
All-weaken P Q [] f a = tt
All-weaken P Q (x ∷ xs) f (here, a) = (f x here, All-weaken P Q xs f a)

mapped_later :
    (instances : List ℕ) (mappings : Dict ℕ) (entry : ℕ × ℕ) (p : ℕ)
    → 1 ≤ mapped instances mappings p
    → 1 ≤ mapped instances (entry ∷ mappings) p
mapped_later instances mappings (i, q) p h = elim (Bool-cases (contains i instances && q == p)) [
  | inl e ↦ rw e (omega arith)
  | inr e ↦ rw e h
]

-- Every instance of the action that is mapped counts for its pool.
pub each_mapped :
    (instances : List ℕ) (mappings : Dict ℕ)
    → All
        (λ entry. 1 ≤ mapped instances mappings entry.1)
        (filter (λ entry. contains entry.0 instances) mappings)
each_mapped instances [] = tt
each_mapped instances ((i, q) ∷ mappings) =
    let later =
      All-weaken (λ entry. 1 ≤ mapped instances mappings entry.1)
        (λ entry. 1 ≤ mapped instances ((i, q) ∷ mappings) entry.1)
        (filter (λ entry. contains entry.0 instances) mappings)
        (λ entry. mapped_later instances mappings (i, q) entry.1)
        (each_mapped instances mappings) in
    let one : 1 ≤ (if q == q then 1 else 0) = rw (==_refl q) (omega arith) in
    elim (Bool-cases (contains i instances)) [
      | inr e ↦
          subst
            (λ b.
              All (λ entry. 1 ≤ mapped instances ((i, q) ∷ mappings) entry.1)
                (if b
                  then (i, q) ∷ filter (λ entry. contains entry.0 instances) mappings
                  else filter (λ entry. contains entry.0 instances) mappings))
            (sym e) later
      | inl e ↦
          subst
            (λ b.
              All (λ entry. 1 ≤ mapped instances ((i, q) ∷ mappings) entry.1)
                (if b
                  then (i, q) ∷ filter (λ entry. contains entry.0 instances) mappings
                  else filter (λ entry. contains entry.0 instances) mappings))
            (sym e) (omega (arith, mapped_first instances mappings i q q e, one), later)
    ]
