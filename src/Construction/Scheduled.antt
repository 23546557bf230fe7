-- ===== src/Construction/Scheduled.antt =====
-- The initial status of the tasks that a piece of code makes.
use cloudshift.Prelude.{
  ℕ, ◌≡◌, refl, Bool, true, false, inl, inr, List, [], ◌∷◌, ◌++◌, length, All, arith, ==_refl,
}
use cloudshift.Constants.{TaskStatus}
use cloudshift.Conductor.Store.{Task}
use cloudshift.Construction.Build.{
  Build, done, create, run, run_all, initial_status, scheduled_among,
}
use cloudshift.Construction.Ordered.{IsMade, IsMade-new, All-IsMade-old, All-known, Closed}

abbrev pub IsScheduled : Task → Type 0
IsScheduled t = t.status ≡ TaskStatus.scheduled

-- The code makes no task that runs after errors only.
unfoldable pub Plain : {A : Type 0} → Build A → Type 0
Plain (done a) = Unit
Plain (create type deps on_error on_error_only k) =
    (on_error_only ≡ false) × ((id : ℕ) → Plain (k id))

All-snoc :
    (ts : List Task) (t : Task)
    → All IsScheduled ts
    → IsScheduled t
    → All IsScheduled (ts ++ t ∷ [])
All-snoc [] t a p = (p, tt)
All-snoc (s ∷ ts) t (q, a) p = (q, All-snoc ts t a p)

among :
    (i d : ℕ) (ts : List Task) → All IsScheduled ts → IsMade i d ts → scheduled_among ts d ≡ true
unfolding IsMade
among i d [] a m = elim m [ ]
among i d (t ∷ ts) (p, a) (inl (q, r)) = rw (p, q, ==_refl d) refl
among i d (t ∷ ts) (p, a) (inr m) = ground (arith, among i d ts a m)

new-scheduled :
    (i : ℕ) (ts : List Task) (deps : List ℕ) (e : Bool)
    → All IsScheduled ts
    → All (λ d. IsMade i d ts) deps
    → initial_status ts deps e false ≡ TaskStatus.scheduled
new-scheduled i ts [] e a m = ground arith
new-scheduled i ts (d ∷ deps) e a (m, ms) = ground (arith, among i d ts a m)

module _ (uuid : ℕ → ℕ) where
  run-IsScheduled :
      {A : Type 0} (i : ℕ) (known : List ℕ) (m : Build A) (ts : List Task)
      → Closed known m
      → Plain m
      → All (λ d. IsMade i d ts) known
      → All IsScheduled ts
      → All IsScheduled (run uuid i m ts).1
  unfolding Closed Plain run
  run-IsScheduled i known (done a) ts closed plain made_ids a' = a'
  run-IsScheduled i known (create type deps e eo k) ts (deps_known, closed) (p, plain) made_ids a =
      run-IsScheduled i (uuid (length ts) ∷ known) (k (uuid (length ts))) _
        (closed (uuid (length ts))) (plain (uuid (length ts)))
        (IsMade-new i _ ts _ refl refl, All-IsMade-old i known ts _ made_ids)
        (All-snoc ts _ a
          (rw p (new-scheduled i ts deps e a (All-known _ known deps deps_known made_ids))))

  pub run_all-IsScheduled :
      (build : ℕ → Build Unit) (instances : List ℕ) (ts : List Task)
      → ((i : ℕ) → Closed [] (build i))
      → ((i : ℕ) → Plain (build i))
      → All IsScheduled ts
      → All IsScheduled (run_all uuid build instances ts)
  unfolding run_all
  run_all-IsScheduled build [] ts closed plain a = a
  run_all-IsScheduled build (i ∷ is) ts closed plain a =
      run_all-IsScheduled build is _ closed plain
        (run-IsScheduled i [] (build i) ts (closed i) (plain i) tt a)
