-- ===== src/Construction/Readiness.antt =====
-- Tasks that come after those they depend on do not block each other.
use cloudshift.Prelude.{
  ℕ, zero, suc, ◌≡◌, refl, Bool, true, false, not, ◌&&◌, ◌||◌, ◌⊎◌, inr, List, [], ◌∷◌, ◌++◌, any,
  all, is_empty, contains, if◌then◌else◌, arith,
}
use cloudshift.Conductor.Store.{Task}
use cloudshift.Construction.Sanity.{
  SanityError, can_queue, gather, collect_fields, task_ids, check_round, check_rounds, check_task,
  check_queued, without_conflict,
}
use cloudshift.Construction.Ordered.{IsInitial}
use cloudshift.Construction.Outcomes.{
  Holds, Holds-bind, Holds-any, Holds-both, Sub, Sub-cons, contains-++, all-Sub,
}

-- Each task depends on tasks before it or on those already seen.
unfoldable pub Ready : (seen : List ℕ) → List Task → Type 0
Ready seen [] = Unit
Ready seen (t ∷ ts) =
    IsInitial t.status × (all (λ d. contains d seen) t.depends_on ≡ true) × Ready (t.id ∷ seen) ts

pub Ready-Sub :
    (seen seen' : List ℕ) (ts : List Task) → Sub seen seen' → Ready seen ts → Ready seen' ts
unfolding Ready
Ready-Sub s s' [] sub r = tt
Ready-Sub s s' (t ∷ ts) sub (i, d, r) =
    (i, all-Sub t.depends_on s s' sub d, Ready-Sub _ _ ts (Sub-cons t.id s s' sub) r)

-- The errors that are no matter of order.
abbrev pub IsFieldError : SanityError → Type 0
IsFieldError e =
    (e ≡ SanityError.missing_parameters)
    ⊎ (e ≡ SanityError.fields_conflict)
    ⊎ (e ≡ SanityError.no_fuel)

-- The tasks left are ready when the processed and the queued ones are seen.
abbrev Left : (seen : List ℕ) → List Task × List Task → Type 0
Left seen r = (seen' : List ℕ) → Sub seen seen' → Sub (task_ids r.0) seen' → Ready seen' r.1

-- What is seen is processed or to be processed.
abbrev Covered : (seen to_process processed : List ℕ) → Type 0
Covered seen tp p = (d : ℕ) → contains d seen ≡ true → (contains d tp || contains d p) ≡ true

none-missing :
    (seen tp p ds : List ℕ)
    → Covered seen tp p
    → all (λ d. contains d seen) ds ≡ true
    → any (λ d. not (contains d tp) && not (contains d p)) ds ≡ false
none-missing seen tp p [] covered h = refl
none-missing seen tp p (d ∷ ds) covered h =
    ground (arith, h, covered d, none-missing seen tp p ds covered)

can_queue-Ready :
    (p tp seen : List ℕ) (t : Task)
    → Covered seen tp p
    → IsInitial t.status
    → all (λ d. contains d seen) t.depends_on ≡ true
    → Holds (λ _. Unit) IsFieldError (can_queue p tp t)
can_queue-Ready p tp seen t covered i d =
    ground (arith, none-missing seen tp p t.depends_on covered d)

gather-Ready :
    (p tp seen : List ℕ) (ts : List Task)
    → Covered seen tp p
    → Sub (task_ids ts) tp
    → Ready seen ts
    → Holds (Left seen) IsFieldError (gather p tp ts)
unfolding gather Ready
gather-Ready p tp seen [] covered inside ready = λ seen' a b. tt
gather-Ready p tp seen (t ∷ ts) covered inside (i, d, ready) =
    Holds-bind (λ _. Unit) (Left seen) IsFieldError (can_queue p tp t) _
      (can_queue-Ready p tp seen t covered i d)
      (λ queued u.
        Holds-bind (Left (t.id ∷ seen)) (Left seen) IsFieldError (gather p tp ts) _
          (gather-Ready p tp (t.id ∷ seen) ts (λ d. ground (arith, covered d, inside d))
            (λ d. ground (arith, inside d)) ready)
          (λ rest left. place queued rest left))
  where
    place :
        (queued : Bool) (rest : List Task × List Task)
        → Left (t.id ∷ seen) rest
        → Left seen (if queued then (t ∷ rest.0, rest.1) else (rest.0, t ∷ rest.1))
    place true rest left seen' a b =
        left seen' (λ d. ground (arith, a d, b d)) (λ d. ground (arith, b d))
    place false rest left seen' a b = (
      i,
      all-Sub t.depends_on seen seen' a d,
      left (t.id ∷ seen') (λ d. ground (arith, a d)) (λ d. ground (arith, b d)),
    )

-- The first of the ready tasks is queued.
first_queued :
    (p : List ℕ) (t : Task) (ts : List Task)
    → Ready p (t ∷ ts)
    → Holds (λ r. is_empty r.0 ≡ false) (λ _. Unit) (gather p (task_ids (t ∷ ts)) (t ∷ ts))
unfolding Ready gather
first_queued p t ts (i, d, r) =
    Holds-bind (λ queued. queued ≡ true) (λ r. is_empty r.0 ≡ false) (λ _. Unit)
      (can_queue p (task_ids (t ∷ ts)) t) _ (ground (arith, d))
      (λ queued q.
        Holds-bind (λ _. Unit) (λ r. is_empty r.0 ≡ false) (λ _. Unit)
          (gather p (task_ids (t ∷ ts)) ts) _ (Holds-any _) (λ rest u. rw q refl))

check_task-field : (keys : List ℕ) (t : Task) → Holds (λ _. Unit) IsFieldError (check_task keys t)
check_task-field keys t = ground arith

collect_fields-field :
    (keys : List ℕ) (ts : List Task) → Holds (λ _. Unit) IsFieldError (collect_fields keys ts)
unfolding collect_fields
collect_fields-field keys [] = tt
collect_fields-field keys (t ∷ ts) =
    Holds-bind (λ _. Unit) (λ _. Unit) IsFieldError (check_task keys t) _ (check_task-field keys t)
      (λ fields u.
        Holds-bind (λ _. Unit) (λ _. Unit) IsFieldError (collect_fields keys ts) _
          (collect_fields-field keys ts) (λ rest u. tt))

-- What a round that passes leaves is ready again.
abbrev ReadyAfter : List ℕ → List ℕ × List Task × List Task → Type 0
ReadyAfter p r = Ready (task_ids r.1 ++ p) r.2

without_conflict-Ready :
    (p fields : List ℕ) (queued : List Task × List Task)
    → Ready (task_ids queued.0 ++ p) queued.1
    → Holds (ReadyAfter p) IsFieldError (without_conflict queued fields)
without_conflict-Ready p fields queued ready = ground arith

check_queued-Ready :
    (keys p : List ℕ) (queued : List Task × List Task)
    → Left p queued × (is_empty queued.0 ≡ false)
    → Holds (ReadyAfter p) IsFieldError (check_queued keys queued)
check_queued-Ready keys p ([], left) (ready, e) = ground arith
check_queued-Ready keys p (t ∷ q, left) (ready, e) =
    Holds-bind (λ _. Unit) (ReadyAfter p) IsFieldError (collect_fields keys (t ∷ q)) _
      (collect_fields-field keys (t ∷ q))
      (λ fields u.
        without_conflict-Ready p fields (t ∷ q, left)
          (ready (task_ids (t ∷ q) ++ p) (λ d. ground (arith, contains-++ d (task_ids (t ∷ q)) p))
            (λ d. ground (arith, contains-++ d (task_ids (t ∷ q)) p))))

pub rounds-Ready :
    (fuel : ℕ) (keys p : List ℕ) (ts : List Task)
    → Ready p ts
    → Holds (λ _. Unit) IsFieldError (check_rounds fuel keys p ts)
unfolding check_rounds check_round
rounds-Ready fuel keys p [] ready = tt
rounds-Ready zero keys p (t ∷ ts) ready = inr (inr refl)
rounds-Ready (suc fuel) keys p (t ∷ ts) ready =
    Holds-bind (ReadyAfter p) (λ _. Unit) IsFieldError (check_round keys p (t ∷ ts)) _
      (Holds-bind (λ r. Left p r × (is_empty r.0 ≡ false)) (ReadyAfter p) IsFieldError
        (gather p (task_ids (t ∷ ts)) (t ∷ ts)) _
        (Holds-both (Left p) _ IsFieldError (gather p (task_ids (t ∷ ts)) (t ∷ ts))
          (gather-Ready p (task_ids (t ∷ ts)) p (t ∷ ts) (λ d. ground arith) (λ d h. h) ready)
          (first_queued p t ts ready))
        (check_queued-Ready keys p))
      (λ r ready_after. rounds-Ready fuel _ _ r.2 ready_after)
