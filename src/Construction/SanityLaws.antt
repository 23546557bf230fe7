-- ===== src/Construction/SanityLaws.antt =====
-- The check of a new execution ends, and what it lets through can run.
use cloudshift.Prelude.{
  ℕ, zero, suc, ◌≤◌, ◌≡◌, refl, subst, true, false, ◌≢◌, List, [], ◌∷◌, ◌++◌, length, contains,
  is_empty, All, arith,
}
use cloudshift.Conductor.Store.{Task}
use cloudshift.Construction.Fields.{required_fields, returned_fields}
use cloudshift.Construction.Sanity.{
  SanityError, Check, passed, failed, check_round, check_rounds, check_instance, task_ids,
}
use cloudshift.Construction.Outcomes.{
  Holds, Holds-bind, Holds-map, Holds-ignore, Sub, Runnable, Runnable-Sub, contains-++, all-Sub,
}
use cloudshift.Construction.Rounds.{
  Round, CanQueue, HasFields, fields_of, IsRoundError, check_round-Holds,
}
use mathlib.Core.List.{Perm}
use mathlib.Core.List.Perm

positive_of_not_empty : (q : List Task) → is_empty q ≡ false → 1 ≤ length q
positive_of_not_empty [] h = ground arith
positive_of_not_empty (t ∷ q) h = omega arith

left_fits :
    (fuel : ℕ) (keys p : List ℕ) (ts : List Task) (r : List ℕ × List Task × List Task)
    → Round keys p ts r
    → length ts ≤ suc fuel
    → length r.2 ≤ fuel
left_fits fuel keys p ts r round fits =
    omega (arith, round.sizes, positive_of_not_empty r.1 round.some_queued)

ends :
    (fuel : ℕ) (keys p : List ℕ) (ts : List Task)
    → length ts ≤ fuel
    → Holds (λ _. Unit) IsRoundError (check_rounds fuel keys p ts)
unfolding check_rounds
ends fuel keys p [] fits = tt
ends zero keys p (t ∷ ts) fits = omega (arith, fits)
ends (suc fuel) keys p (t ∷ ts) fits =
    Holds-bind (Round keys p (t ∷ ts)) (λ _. Unit) IsRoundError (check_round keys p (t ∷ ts)) _
      (check_round-Holds keys p (t ∷ ts))
      (λ r round. ends fuel _ _ r.2 (left_fits fuel keys p (t ∷ ts) r round fits))

ne_of_Holds :
    {A : Type 0} (m : Check A) → Holds (λ _. Unit) IsRoundError m → m ≢ failed SanityError.no_fuel
ne_of_Holds m h e = subst (λ m. Holds (λ _. Unit) IsRoundError m) e h refl

-- The check of the tasks of an instance ends, whatever the tasks are: in each round that does not
-- fail a task is processed, so that the loop has at most as many rounds as there are tasks.
pub check_instance-ne-no_fuel :
    (keys : List ℕ) (tasks : List Task) → check_instance keys tasks ≢ failed SanityError.no_fuel
unfolding check_instance
check_instance-ne-no_fuel keys tasks =
    ne_of_Holds _ (ends (length tasks) keys [] tasks (omega arith))

Sub-later :
    (d : ℕ) (t : Task) (q : List Task) (p : List ℕ)
    → contains d (task_ids (t ∷ q) ++ p) ≡ true
    → contains d (task_ids q ++ t.id ∷ p) ≡ true
Sub-later d t q p =
    ground (arith, contains-++ d (task_ids q) p, contains-++ d (task_ids q) (t.id ∷ p))

Sub-assoc :
    (d : ℕ) (xs ys zs : List ℕ)
    → contains d (xs ++ (ys ++ zs)) ≡ true
    → contains d ((xs ++ ys) ++ zs) ≡ true
Sub-assoc d xs ys zs = ground (
  arith,
  contains-++ d xs (ys ++ zs),
  contains-++ d ys zs,
  contains-++ d (xs ++ ys) zs,
  contains-++ d xs ys,
)

Sub-right : (xs ys : List ℕ) → Sub xs (xs ++ ys)
Sub-right xs ys d = ground (arith, contains-++ d xs ys)

Sub-weaken : (x : ℕ) (xs : List ℕ) → Sub xs (x ∷ xs)
Sub-weaken x xs d = ground arith

-- Queued tasks can run one after the other, and then whatever could run after all of them.
All-HasFields-Sub :
    (keys keys' : List ℕ) (q : List Task)
    → Sub keys keys'
    → All (HasFields keys) q
    → All (HasFields keys') q
All-HasFields-Sub keys keys' [] sub h = tt
All-HasFields-Sub keys keys' (t ∷ q) sub (h, hs) =
    (all-Sub (required_fields t.task_type) keys keys' sub h, All-HasFields-Sub keys keys' q sub hs)

All-CanQueue-Sub :
    (p p' : List ℕ) (q : List Task) → Sub p p' → All (CanQueue p) q → All (CanQueue p') q
unfolding CanQueue
All-CanQueue-Sub p p' [] sub h = tt
All-CanQueue-Sub p p' (t ∷ q) sub ((i, d), hs) =
    ((i, all-Sub t.depends_on p p' sub d), All-CanQueue-Sub p p' q sub hs)

-- Queued tasks can run one after the other, and then whatever could run after all of them.
Runnable-queued :
    (keys p : List ℕ) (q order : List Task)
    → All (HasFields keys) q
    → All (CanQueue p) q
    → Runnable (keys ++ fields_of q) (task_ids q ++ p) order
    → Runnable keys p (q ++ order)
unfolding Runnable CanQueue
Runnable-queued keys p [] order f c r =
    Runnable-Sub (keys ++ []) keys p p order (λ d. ground (arith, contains-++ d keys [])) (λ d h. h)
      r
Runnable-queued keys p (t ∷ q) order (f, fs) (c, cs) r = (
  c.0,
  c.1,
  f,
  Runnable-queued _ _ q order (All-HasFields-Sub keys _ q (Sub-right keys _) fs)
      (All-CanQueue-Sub p (t.id ∷ p) q (Sub-weaken t.id p) cs)
      (Runnable-Sub _ _ _ _ order
        (λ d. Sub-assoc d keys (returned_fields t.task_type) (fields_of q)) (λ d. Sub-later d t q p)
        r),
)

-- An order of the tasks in which they can run.
abbrev pub CanRun : (keys processed : List ℕ) → List Task → Type 0
CanRun keys processed ts = (order : List Task) × Perm ts order × Runnable keys processed order

CanRun-Round :
    (keys p : List ℕ) (ts : List Task) (r : List ℕ × List Task × List Task)
    → Round keys p ts r
    → CanRun (keys ++ r.0) (task_ids r.1 ++ p) r.2
    → CanRun keys p ts
CanRun-Round keys p ts r round (order, perm, runs) = (
  r.1 ++ order,
  Perm.trans round.divided (Perm.append (Perm.refl r.1) perm),
  Runnable-queued keys p r.1 order round.have_fields round.can_queue_all
      (subst (λ fields. Runnable (keys ++ fields) (task_ids r.1 ++ p) order) round.fields_lem runs),
)

rounds-CanRun :
    (fuel : ℕ) (keys p : List ℕ) (ts : List Task)
    → Holds (λ _. CanRun keys p ts) (λ _. Unit) (check_rounds fuel keys p ts)
unfolding check_rounds Runnable
rounds-CanRun fuel keys p [] = ([], Perm.refl [], tt)
rounds-CanRun zero keys p (t ∷ ts) = tt
rounds-CanRun (suc fuel) keys p (t ∷ ts) =
    Holds-bind (Round keys p (t ∷ ts)) (λ _. CanRun keys p (t ∷ ts)) (λ _. Unit)
      (check_round keys p (t ∷ ts)) _
      (Holds-ignore (Round keys p (t ∷ ts)) IsRoundError _ (check_round-Holds keys p (t ∷ ts)))
      (λ r round.
        Holds-map (λ _. CanRun (keys ++ r.0) (task_ids r.1 ++ p) r.2) (λ _. CanRun keys p (t ∷ ts))
          _ (check_rounds fuel _ _ r.2) (rounds-CanRun fuel _ _ r.2)
          (λ _. CanRun-Round keys p (t ∷ ts) r round))

-- If the check of the tasks of an instance passes, the tasks can be put in an order in which each
-- one has a status that it can start from, comes after all tasks that it depends on, and finds
-- each name that its runner requires in the initial task info or among the names that earlier
-- tasks return.
pub check_instance-CanRun :
    (keys : List ℕ) (tasks : List Task)
    → check_instance keys tasks ≡ passed tt
    → CanRun keys [] tasks
unfolding check_instance
check_instance-CanRun keys tasks h =
    subst (Holds (λ _. CanRun keys [] tasks) (λ _. Unit)) h
      (rounds-CanRun (length tasks) keys [] tasks)
