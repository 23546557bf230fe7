-- ===== src/Construction/Outcomes.antt =====
-- What holds of the outcome of a check, and the order in which a set of tasks can run.
use cloudshift.Prelude.{ℕ, ◌≡◌, refl, true, ◌||◌, List, [], ◌∷◌, ◌++◌, contains, all, arith}
use cloudshift.Conductor.Store.{Task}
use cloudshift.Construction.Sanity.{SanityError, Check, passed, failed, ◌>>=◌}
use cloudshift.Construction.Fields.{required_fields, returned_fields}
use cloudshift.Construction.Ordered.{IsInitial}

-- The value of a check that passes has the first property, the error of one that fails the second.
abbrev pub Holds : {A : Type 0} → (A → Type 0) → (SanityError → Type 0) → Check A → Type 0
Holds P E (passed a) = P a
Holds P E (failed e) = E e

pub Holds-bind :
    {A B : Type 0} (P : A → Type 0) (Q : B → Type 0) (E : SanityError → Type 0) (m : Check A)
    (f : A → Check B)
    → Holds P E m
    → ((a : A) → P a → Holds Q E (f a))
    → Holds Q E (m >>= f)
Holds-bind P Q E (passed a) f p h = h a p
Holds-bind P Q E (failed e) f p h = p

pub Holds-map :
    {A : Type 0} (P Q : A → Type 0) (E : SanityError → Type 0) (m : Check A)
    → Holds P E m
    → ((a : A) → P a → Q a)
    → Holds Q E m
Holds-map P Q E (passed a) p h = h a p
Holds-map P Q E (failed e) p h = p

pub Holds-ignore :
    {A : Type 0} (P : A → Type 0) (E : SanityError → Type 0) (m : Check A)
    → Holds P E m
    → Holds P (λ _. Unit) m
Holds-ignore P E (passed a) p = p
Holds-ignore P E (failed e) p = tt

pub Holds-any : {A : Type 0} (m : Check A) → Holds (λ _. Unit) (λ _. Unit) m
Holds-any (passed a) = tt
Holds-any (failed e) = tt

pub Holds-both :
    {A : Type 0} (P Q : A → Type 0) (E : SanityError → Type 0) (m : Check A)
    → Holds P E m
    → Holds Q (λ _. Unit) m
    → Holds (λ a. P a × Q a) E m
Holds-both P Q E (passed a) p q = (p, q)
Holds-both P Q E (failed e) p q = p

-- The names or identifiers of one list are in the other.
abbrev pub Sub : List ℕ → List ℕ → Type 0
Sub xs ys = (d : ℕ) → contains d xs ≡ true → contains d ys ≡ true

pub contains-++ :
    (d : ℕ) (xs ys : List ℕ) → contains d (xs ++ ys) ≡ (contains d xs || contains d ys)
contains-++ d [] ys = refl
contains-++ d (x ∷ xs) ys = ground (arith, contains-++ d xs ys)

pub Sub-cons : (x : ℕ) (xs ys : List ℕ) → Sub xs ys → Sub (x ∷ xs) (x ∷ ys)
Sub-cons x xs ys sub d = ground (arith, sub d)

pub Sub-append : (xs ys zs : List ℕ) → Sub xs ys → Sub (xs ++ zs) (ys ++ zs)
Sub-append xs ys zs sub d = ground (arith, sub d, contains-++ d xs zs, contains-++ d ys zs)

pub all-Sub :
    (ds xs ys : List ℕ)
    → Sub xs ys
    → all (λ d. contains d xs) ds ≡ true
    → all (λ d. contains d ys) ds ≡ true
all-Sub [] xs ys sub h = refl
all-Sub (d ∷ ds) xs ys sub h = ground (arith, sub d, all-Sub ds xs ys sub)

-- The tasks can run one after the other: those that a task depends on are processed, and the
-- names that it requires are known, when its turn comes.
unfoldable pub Runnable : (task_info_keys processed : List ℕ) → List Task → Type 0
Runnable keys processed [] = Unit
Runnable keys processed (t ∷ ts) =
    IsInitial t.status
    × (all (λ d. contains d processed) t.depends_on ≡ true)
    × (all (λ p. contains p keys) (required_fields t.task_type) ≡ true)
    × Runnable (keys ++ returned_fields t.task_type) (t.id ∷ processed) ts

pub Runnable-Sub :
    (keys keys' processed processed' : List ℕ) (ts : List Task)
    → Sub keys keys'
    → Sub processed processed'
    → Runnable keys processed ts
    → Runnable keys' processed' ts
unfolding Runnable
Runnable-Sub keys keys' p p' [] k s r = tt
Runnable-Sub keys keys' p p' (t ∷ ts) k s (i, d, q, r) = (
  i,
  all-Sub t.depends_on p p' s d,
  all-Sub (required_fields t.task_type) keys keys' k q,
  Runnable-Sub _ _ _ _ ts (Sub-append keys keys' _ k) (Sub-cons t.id p p' s) r,
)
