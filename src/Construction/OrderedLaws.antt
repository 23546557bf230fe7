-- ===== src/Construction/OrderedLaws.antt =====
-- The check of a new execution, on tasks that were made one after the other.
use cloudshift.Prelude.{
  ℕ, ◌≡◌, refl, subst, Bool, true, false, ◌||◌, ◌⊎◌, inl, inr, ◌≢◌, List, [], ◌∷◌, ◌++◌, length,
  all, contains, All, ◌==◌, if◌then◌else◌, arith, Bool-cases, ==_refl, ==_iff,
}
use cloudshift.Conductor.Store.{Task}
use cloudshift.Construction.Sanity.{
  SanityError, Check, passed, failed, check_instance, task_ids, tasks_for,
}
use cloudshift.Construction.Ordered.{IsInitial, IsMade, Ordered}
use cloudshift.Construction.Outcomes.{Holds}
use cloudshift.Construction.Readiness.{Ready, IsFieldError, rounds-Ready}

all_imp :
    (p q : ℕ → Bool) (ds : List ℕ)
    → ((d : ℕ) → p d ≡ true → q d ≡ true)
    → all p ds ≡ true
    → all q ds ≡ true
all_imp p q [] imp h = refl
all_imp p q (d ∷ ds) imp h = ground (arith, h, imp d, all_imp p q ds imp)

Ready-snoc :
    (seen : List ℕ) (ts : List Task) (t : Task)
    → Ready seen ts
    → IsInitial t.status
    → all (λ d. contains d seen || contains d (task_ids ts)) t.depends_on ≡ true
    → Ready seen (ts ++ t ∷ [])
unfolding Ready
Ready-snoc seen [] t ready i deps = (i, all_imp _ _ t.depends_on (λ d. ground arith) deps, tt)
Ready-snoc seen (s ∷ ts) t (j, e, ready) i deps = (
  j,
  e,
  Ready-snoc (s.id ∷ seen) ts t ready i (all_imp _ _ t.depends_on (λ d. ground arith) deps),
)

contains-IsMade :
    (i d : ℕ) (ts : List Task) → IsMade i d ts → contains d (task_ids (tasks_for i ts)) ≡ true
unfolding IsMade
contains-IsMade i d [] m = elim m [ ]
contains-IsMade i d (t ∷ ts) (inl (p, q)) = ground (arith, p, q, ==_refl d, ==_refl i)
contains-IsMade i d (t ∷ ts) (inr m) = ground (arith, contains-IsMade i d ts m)

all-IsMade :
    (i : ℕ) (ds : List ℕ) (ts : List Task)
    → All (λ d. IsMade i d ts) ds
    → all (λ d. contains d [] || contains d (task_ids (tasks_for i ts))) ds ≡ true
all-IsMade i [] ts m = refl
all-IsMade i (d ∷ ds) ts (m, ms) = rw (contains-IsMade i d ts m, all-IsMade i ds ts ms) refl

pub tasks_for-snoc :
    (i : ℕ) (ts : List Task) (t : Task)
    → tasks_for i (ts ++ t ∷ [])
      ≡ (if t.instance_name == i then tasks_for i ts ++ t ∷ [] else tasks_for i ts)
tasks_for-snoc i [] t = refl
tasks_for-snoc i (s ∷ ts) t = ground (arith, tasks_for-snoc i ts t)

Ready-Ordered : (i : ℕ) (ts : List Task) → Ordered ts → Ready [] (tasks_for i ts)
unfolding Ready
Ready-Ordered i _ Ordered.none_made = tt
Ready-Ordered i _ (Ordered.made {ts} t ordered deps initial) =
    rw (tasks_for-snoc i ts t)
      (place (Bool-cases (t.instance_name == i)) (Ready-Ordered i ts ordered))
  where
    place :
        ((t.instance_name == i) ≡ true) ⊎ ((t.instance_name == i) ≡ false)
        → Ready [] (tasks_for i ts)
        → Ready [] (if t.instance_name == i then tasks_for i ts ++ t ∷ [] else tasks_for i ts)
    place (inl h) ready = rw h (
        Ready-snoc [] (tasks_for i ts) t ready initial (
          all-IsMade i t.depends_on ts (
            subst (λ j. All (λ d. IsMade j d ts) t.depends_on) ((==_iff t.instance_name i).0 h)
              deps)))
    place (inr h) ready = rw h ready

ne_of_Holds :
    (m : Check Unit)
    → Holds (λ _. Unit) IsFieldError m
    → (m ≢ failed SanityError.deadlock)
      × (m ≢ failed SanityError.missing_dependency)
      × (m ≢ failed SanityError.invalid_initial_state)
ne_of_Holds (passed tt) h = ((λ e. ground arith), (λ e. ground arith), (λ e. ground arith))
ne_of_Holds (failed error) h = ((λ e. ground arith), (λ e. ground arith), (λ e. ground arith))

-- The tasks of an instance, among tasks that were each made after those they depend on, pass the
-- check or fail it for the names of the task info only: never by a missing dependency, by a wrong
-- initial status or by a deadlock.
pub check_instance-Ordered :
    (keys : List ℕ) (i : ℕ) (ts : List Task)
    → Ordered ts
    → (check_instance keys (tasks_for i ts) ≢ failed SanityError.deadlock)
      × (check_instance keys (tasks_for i ts) ≢ failed SanityError.missing_dependency)
      × (check_instance keys (tasks_for i ts) ≢ failed SanityError.invalid_initial_state)
unfolding check_instance
check_instance-Ordered keys i ts ordered =
    ne_of_Holds _
      (rounds-Ready (length (tasks_for i ts)) keys [] (tasks_for i ts) (Ready-Ordered i ts ordered))
