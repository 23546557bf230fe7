-- ===== src/Construction/Keys.antt =====
-- More names in the initial task info do no harm to the check of a new execution.
use cloudshift.Prelude.{ℕ, zero, suc, ◌≡◌, refl, List, [], ◌∷◌, ◌++◌, length, arith}
use cloudshift.Conductor.Store.{Task}
use cloudshift.Construction.Fields.{required_fields}
use cloudshift.Construction.Sanity.{
  Check, passed, failed, ◌>>=◌, gather, collect_fields, task_ids, check_round, check_rounds,
  check_instance, check_task, check_queued,
}
use cloudshift.Construction.Outcomes.{Sub, Sub-append, all-Sub}

-- Where the first passes, so does the second, with the same value.
abbrev Passes : {A : Type 0} → Check A → Check A → Type 0
Passes {A} m m' = (a : A) → m ≡ passed a → m' ≡ passed a

Passes-bind :
    {A B : Type 0} (m m' : Check A) (f f' : A → Check B)
    → Passes m m'
    → ((a : A) → Passes (f a) (f' a))
    → Passes (m >>= f) (m' >>= f')
Passes-bind (passed a) m' f f' p q b e = rw (p a refl) (q a b e)
Passes-bind (failed x) m' f f' p q b e = ground (arith, e)

check_task-Passes :
    (keys keys' : List ℕ) (t : Task)
    → Sub keys keys'
    → Passes (check_task keys t) (check_task keys' t)
check_task-Passes keys keys' t sub a e =
    ground (arith, e, all-Sub (required_fields t.task_type) keys keys' sub)

collect_fields-Passes :
    (keys keys' : List ℕ) (ts : List Task)
    → Sub keys keys'
    → Passes (collect_fields keys ts) (collect_fields keys' ts)
unfolding collect_fields
collect_fields-Passes keys keys' [] sub = λ a e. e
collect_fields-Passes keys keys' (t ∷ ts) sub =
    Passes-bind (check_task keys t) (check_task keys' t) _ _ (check_task-Passes keys keys' t sub)
      (λ fields.
        Passes-bind (collect_fields keys ts) (collect_fields keys' ts) _ _
          (collect_fields-Passes keys keys' ts sub) (λ rest a e. e))

check_queued-Passes :
    (keys keys' : List ℕ) (queued : List Task × List Task)
    → Sub keys keys'
    → Passes (check_queued keys queued) (check_queued keys' queued)
check_queued-Passes keys keys' ([], left) sub = λ a e. e
check_queued-Passes keys keys' (t ∷ q, left) sub =
    Passes-bind (collect_fields keys (t ∷ q)) (collect_fields keys' (t ∷ q)) _ _
      (collect_fields-Passes keys keys' (t ∷ q) sub) (λ fields a e. e)

rounds-Passes :
    (fuel : ℕ) (keys keys' p : List ℕ) (ts : List Task)
    → Sub keys keys'
    → Passes (check_rounds fuel keys p ts) (check_rounds fuel keys' p ts)
unfolding check_rounds check_round
rounds-Passes fuel keys keys' p [] sub = λ a e. e
rounds-Passes zero keys keys' p (t ∷ ts) sub = λ a e. e
rounds-Passes (suc fuel) keys keys' p (t ∷ ts) sub =
    Passes-bind (check_round keys p (t ∷ ts)) (check_round keys' p (t ∷ ts)) _ _
      (Passes-bind (gather p (task_ids (t ∷ ts)) (t ∷ ts)) (gather p (task_ids (t ∷ ts)) (t ∷ ts)) _
        _ (λ a e. e) (λ queued. check_queued-Passes keys keys' queued sub))
      (λ r. rounds-Passes fuel (keys ++ r.0) (keys' ++ r.0) _ r.2 (Sub-append keys keys' r.0 sub))

-- If the check of the tasks of an instance passes, it passes with more names in the initial task
-- info.
pub check_instance-Sub :
    (keys keys' : List ℕ) (ts : List Task)
    → Sub keys keys'
    → check_instance keys ts ≡ passed tt
    → check_instance keys' ts ≡ passed tt
unfolding check_instance
check_instance-Sub keys keys' ts sub h = rounds-Passes (length ts) keys keys' [] ts sub tt h
