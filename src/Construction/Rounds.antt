-- ===== src/Construction/Rounds.antt =====
-- What one round of the check of a new execution does.
use cloudshift.Prelude.{
  ℕ, ◌+◌, ◌≡◌, refl, Bool, true, false, ◌⊎◌, inl, inr, ◌≢◌, List, [], ◌∷◌, ◌++◌, length, all,
  is_empty, contains, All, if◌then◌else◌, arith, Bool-cases,
}
use cloudshift.Conductor.Store.{Task}
use cloudshift.Construction.Fields.{required_fields, returned_fields}
use cloudshift.Construction.Sanity.{
  SanityError, passed, can_queue, gather, collect_fields, has_conflict, check_round, check_task,
  check_queued, without_conflict,
}
use cloudshift.Construction.Ordered.{IsInitial}
use cloudshift.Construction.Outcomes.{Holds, Holds-bind}
use mathlib.Core.List.{Perm, perm_middle}
use mathlib.Core.List.Perm

-- A task that is queued can run after the processed tasks.
unfoldable pub CanQueue : (processed : List ℕ) → Task → Type 0
CanQueue processed t = IsInitial t.status × (all (λ d. contains d processed) t.depends_on ≡ true)

abbrev Gathered : (processed : List ℕ) → List Task → List Task × List Task → Type 0
Gathered processed ts r =
    All (CanQueue processed) r.0 × Perm ts (r.0 ++ r.1) × (length r.0 + length r.1 ≡ length ts)

-- The model never runs out of fuel here.
abbrev pub IsRoundError : SanityError → Type 0
IsRoundError e = e ≢ SanityError.no_fuel

can_queue-Holds :
    (p tp : List ℕ) (t : Task)
    → Holds (λ queued. queued ≡ true → CanQueue p t) IsRoundError (can_queue p tp t)
unfolding CanQueue
can_queue-Holds p tp t = ground arith

gather-Holds :
    (p tp : List ℕ) (ts : List Task) → Holds (Gathered p ts) IsRoundError (gather p tp ts)
unfolding gather
gather-Holds p tp [] = (tt, Perm.refl [], refl)
gather-Holds p tp (t ∷ ts) =
    Holds-bind (λ queued. queued ≡ true → CanQueue p t) (Gathered p (t ∷ ts)) IsRoundError _ _
      (can_queue-Holds p tp t)
      (λ queued can.
        Holds-bind (Gathered p ts) (Gathered p (t ∷ ts)) IsRoundError _ _ (gather-Holds p tp ts)
          (λ rest g. place queued rest can g))
  where
    place :
        (queued : Bool) (rest : List Task × List Task)
        → (queued ≡ true → CanQueue p t)
        → Gathered p ts rest
        → Gathered p (t ∷ ts) (if queued then (t ∷ rest.0, rest.1) else (rest.0, t ∷ rest.1))
    place true rest can (a, b, c) = ((can refl, a), Perm.cons t b, omega (arith, c))
    place false rest can (a, b, c) =
        (a, Perm.trans (Perm.cons t b) (Perm.symm (perm_middle _ _)), omega (arith, c))

-- The names that the queued tasks return.
abbrev pub fields_of : List Task → List ℕ
fields_of [] = []
fields_of (t ∷ ts) = returned_fields t.task_type ++ fields_of ts

abbrev pub HasFields : (task_info_keys : List ℕ) → Task → Type 0
HasFields keys t = all (λ p. contains p keys) (required_fields t.task_type) ≡ true

abbrev TaskChecked : List ℕ → Task → List ℕ → Type 0
TaskChecked keys t fields = (fields ≡ returned_fields t.task_type) × HasFields keys t

check_task-Holds :
    (keys : List ℕ) (t : Task) → Holds (TaskChecked keys t) IsRoundError (check_task keys t)
check_task-Holds keys t =
    from (Bool-cases (all (λ p. contains p keys) (required_fields t.task_type)))
  where
    from :
        (all (λ p. contains p keys) (required_fields t.task_type) ≡ true)
          ⊎ (all (λ p. contains p keys) (required_fields t.task_type) ≡ false)
        → Holds (TaskChecked keys t) IsRoundError (check_task keys t)
    from (inl h) = rw h (refl, h)
    from (inr h) = rw h (λ e. ground arith)

abbrev Collected : List ℕ → List Task → List ℕ → Type 0
Collected keys ts fields = (fields ≡ fields_of ts) × All (HasFields keys) ts

collect_fields-Holds :
    (keys : List ℕ) (ts : List Task)
    → Holds (Collected keys ts) IsRoundError (collect_fields keys ts)
unfolding collect_fields
collect_fields-Holds keys [] = (refl, tt)
collect_fields-Holds keys (t ∷ ts) =
    Holds-bind (TaskChecked keys t) (Collected keys (t ∷ ts)) IsRoundError _ _
      (check_task-Holds keys t)
      (λ fields f.
        Holds-bind (Collected keys ts) (Collected keys (t ∷ ts)) IsRoundError
          (collect_fields keys ts) (λ rest. passed (fields ++ rest)) (collect_fields-Holds keys ts)
          (λ rest r. (rw (f.0, r.0) refl, (f.1, r.1))))

-- A round that passes: what it returns, and how the tasks are divided.
pub record Round (keys processed : List ℕ) (ts : List Task) (r : List ℕ × List Task × List Task)
    : Type 0 where
  pub fields_lem : r.0 ≡ fields_of r.1
  pub have_fields : All (HasFields keys) r.1
  pub can_queue_all : All (CanQueue processed) r.1
  pub divided : Perm ts (r.1 ++ r.2)
  pub some_queued : is_empty r.1 ≡ false
  pub sizes : length r.1 + length r.2 ≡ length ts

check_queued-Holds :
    (keys processed : List ℕ) (ts : List Task) (queued : List Task × List Task)
    → Gathered processed ts queued
    → Holds (Round keys processed ts) IsRoundError (check_queued keys queued)
check_queued-Holds keys processed ts ([], left) g = λ e. ground arith
check_queued-Holds keys processed ts (t ∷ q, left) g =
    Holds-bind (Collected keys (t ∷ q)) (Round keys processed ts) IsRoundError _ _
      (collect_fields-Holds keys (t ∷ q))
      (λ fields c. from fields c (Bool-cases (has_conflict fields)))
  where
    from :
        (fields : List ℕ)
        → Collected keys (t ∷ q) fields
        → (has_conflict fields ≡ true) ⊎ (has_conflict fields ≡ false)
        → Holds (Round keys processed ts) IsRoundError (without_conflict (t ∷ q, left) fields)
    from fields c (inl h) = rw h (λ e. ground arith)
    from fields c (inr h) = rw h (record {
      fields_lem = c.0;
      have_fields = c.1;
      can_queue_all = g.0;
      divided = g.1;
      some_queued = refl;
      sizes = g.2;
    })

pub check_round-Holds :
    (keys processed : List ℕ) (ts : List Task)
    → Holds (Round keys processed ts) IsRoundError (check_round keys processed ts)
unfolding check_round
check_round-Holds keys processed ts =
    Holds-bind (Gathered processed ts) (Round keys processed ts) IsRoundError _ _
      (gather-Holds processed _ ts) (check_queued-Holds keys processed ts)
