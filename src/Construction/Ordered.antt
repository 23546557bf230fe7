-- ===== src/Construction/Ordered.antt =====
-- The order of the tasks that a piece of code makes: each task comes after those it depends on.
use cloudshift.Prelude.{
  ℕ, ◌≡◌, refl, sym, subst, Bool, ◌⊎◌, inl, inr, List, [], ◌∷◌, ◌++◌, length, All, arith,
}
use cloudshift.Constants.{TaskStatus}
use cloudshift.Conductor.Store.{Task}
use cloudshift.Construction.Build.{Build, done, create, initial_status, run, run_all}
use mathlib.Core.List.{Memᴰ}

-- The identifier is that of a task of the instance.
unfoldable pub IsMade : (instance_name id : ℕ) → List Task → Type 0
IsMade i id [] = ⊥
IsMade i id (t ∷ ts) = ((t.id ≡ id) × (t.instance_name ≡ i)) ⊎ IsMade i id ts

abbrev pub IsInitial : TaskStatus → Type 0
IsInitial status = (status ≡ TaskStatus.scheduled) ⊎ (status ≡ TaskStatus.on_error_only)

-- Every task depends on tasks of its instance that were made before it, and has one of the two
-- statuses that a new task has.
pub data Ordered : List Task → Type 0 where
  none_made : Ordered []
  made :
      {ts : List Task} (t : Task)
      → Ordered ts
      → All (λ d. IsMade t.instance_name d ts) t.depends_on
      → IsInitial t.status
      → Ordered (ts ++ t ∷ [])

-- The code makes tasks that depend on tasks it has made, or on those of the list.
unfoldable pub Closed : {A : Type 0} → (known : List ℕ) → Build A → Type 0
Closed known (done a) = Unit
Closed known (create type deps on_error on_error_only k) =
    All (λ d. Memᴰ d known) deps × ((id : ℕ) → Closed (id ∷ known) (k id))

pub IsMade-new :
    (i id : ℕ) (ts : List Task) (t : Task)
    → t.id ≡ id
    → t.instance_name ≡ i
    → IsMade i id (ts ++ t ∷ [])
unfolding IsMade
IsMade-new i id [] t p q = inl (p, q)
IsMade-new i id (s ∷ ts) t p q = inr (IsMade-new i id ts t p q)

IsMade-old : (i id : ℕ) (ts : List Task) (t : Task) → IsMade i id ts → IsMade i id (ts ++ t ∷ [])
unfolding IsMade
IsMade-old i id [] t m = elim m [ ]
IsMade-old i id (s ∷ ts) t (inl p) = inl p
IsMade-old i id (s ∷ ts) t (inr m) = inr (IsMade-old i id ts t m)

pub All-IsMade-old :
    (i : ℕ) (known : List ℕ) (ts : List Task) (t : Task)
    → All (λ d. IsMade i d ts) known
    → All (λ d. IsMade i d (ts ++ t ∷ [])) known
All-IsMade-old i [] ts t m = tt
All-IsMade-old i (d ∷ known) ts t (m, ms) = (IsMade-old i d ts t m, All-IsMade-old i known ts t ms)

pub All-Memᴰ {ℓ} : (P : ℕ → Type ℓ) (known : List ℕ) (d : ℕ) → Memᴰ d known → All P known → P d
All-Memᴰ P [] d m _ = elim m [ ]
All-Memᴰ P (x ∷ known) d (Memᴰ.head e) (p, ps) = subst P (sym e) p
All-Memᴰ P (x ∷ known) d (Memᴰ.tail m) (p, ps) = All-Memᴰ P known d m ps

pub All-known {ℓ} :
    (P : ℕ → Type ℓ) (known deps : List ℕ) → All (λ d. Memᴰ d known) deps → All P known → All P deps
All-known P known [] ms ps = tt
All-known P known (d ∷ deps) (m, ms) ps = (All-Memᴰ P known d m ps, All-known P known deps ms ps)

pub initial_status-IsInitial :
    (ts : List Task) (deps : List ℕ) (e eo : Bool) → IsInitial (initial_status ts deps e eo)
initial_status-IsInitial ts deps e eo = ground arith

module _ (uuid : ℕ → ℕ) where
  pub run-Ordered :
      {A : Type 0} (i : ℕ) (known : List ℕ) (m : Build A) (ts : List Task)
      → Closed known m
      → All (λ d. IsMade i d ts) known
      → Ordered ts
      → Ordered (run uuid i m ts).1
  unfolding Closed run
  run-Ordered i known (done a) ts closed made_ids ordered = ordered
  run-Ordered i known (create type deps e eo k) ts (deps_known, closed) made_ids ordered =
      run-Ordered i (uuid (length ts) ∷ known) (k (uuid (length ts))) _ (closed (uuid (length ts)))
        (IsMade-new i _ ts _ refl refl, All-IsMade-old i known ts _ made_ids)
        (Ordered.made _ ordered (All-known _ known deps deps_known made_ids)
          (initial_status-IsInitial ts deps e eo))

  pub run_all-Ordered :
      (build : ℕ → Build Unit) (instances : List ℕ) (ts : List Task)
      → ((i : ℕ) → Closed [] (build i))
      → Ordered ts
      → Ordered (run_all uuid build instances ts)
  unfolding run_all
  run_all-Ordered build [] ts closed ordered = ordered
  run_all-Ordered build (i ∷ is) ts closed ordered =
      run_all-Ordered build is _ closed (run-Ordered i [] (build i) ts (closed i) tt ordered)
