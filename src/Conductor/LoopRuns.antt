-- ===== src/Conductor/LoopRuns.antt =====
-- The loop of a state advancement keeps its map of statuses equal to the rows.
use cloudshift.Prelude.{
  ℕ, suc, ◌≡◌, refl, sym, ap, ◌∙◌, ◌≢◌, Bool, true, false, Option, none, some, List, [], ◌∷◌, Dict,
  lookup, insert, ◌==◌, if◌then◌else◌, Bool-cases, inl, inr, arith,
}
use cloudshift.Constants.{TaskStatus, is_scheduled}
use cloudshift.Conductor.Store.{
  Task, Execution, Store, World, put_task, status_in, status_of, tasks_of,
}
use cloudshift.Conductor.Effects.{
  M, Result, ok, err, Error, key_error, call_failed, out_of_fuel, pure, raise, handle, and_then,
  ◌>>=◌, ◌>>◌, set_task_status,
}
use cloudshift.Conductor.Status.{status_map}
use cloudshift.Conductor.Advance.{
  Decision, start, unschedule, wait, Progress, start_task, apply_decision, advance_parents,
  advance_scheduled, advance_found, advance_one, parent_statuses,
}
use cloudshift.Conductor.Diagram
use cloudshift.Conductor.Diagram.{edge}
use cloudshift.Conductor.Rows.{set_status, with_status, set_task_status_ok}
use cloudshift.Conductor.Evolves.{Distinct, ids_of, Evolves-trans}
use cloudshift.Conductor.Runs.{
  Runs, Ran, Runs-pure, Runs-bind, Runs-seq, Runs-raise, Runs-set_task_status,
}
use cloudshift.Conductor.StartRuns.{
  Outcome, unplaced, refused, accepted, Attempted, begin-Outcome, begin-Attempted, pending_now,
}

pub lookup-status_map : (j : ℕ) (ts : List Task) → lookup j (status_map ts) ≡ status_in j ts
unfolding lookup status_in
lookup-status_map j [] = refl
lookup-status_map j (t ∷ ts) = ground (arith, lookup-status_map j ts)

pub status_map-set_status :
    (id : ℕ) (v : TaskStatus) (ts : List Task) {a : TaskStatus}
    → status_in id ts ≡ some a
    → insert id v (status_map ts) ≡ status_map (set_status id v ts)
unfolding insert status_in put_task
status_map-set_status id v [] h = cc
status_map-set_status id v (t ∷ ts) {a} h = elim (Bool-cases (t.id == id)) [
  | inl same ↦ rw same (ground (arith, ==_same same))
  | inr other ↦
      rw other
        (ap (λ m. (t.id, t.status) ∷ m) (status_map-set_status id v ts {a = a} (rw other at h)))
]
  where
    ==_same : (t.id == id) ≡ true → t.id ≡ id
    ==_same e = ground arith

-- The cancellation that follows a failed start; nothing is known of it with no fuel.
abbrev pub Cancels : ℕ → (Execution → M Unit) → Type 0
Cancels n cancel = (e : Execution) (s : Store) → Distinct (ids_of s) → Runs n (cancel e) s

raised :
    {A B : Type 0} (r : Result A) (e : Error) (s : Store) {b : B}
    → (and_then r (λ _. raise e) s).0 ≡ ok b
    → ⊥
raised (ok a) e s h = cc
raised (err e') e s h = cc

module _ (n : ℕ) (w : World) (cancel : Execution → M Unit) (execution : Execution)
    (cancels : Cancels n cancel) where
  abbrev on_failure : Error → M Unit
  on_failure e = do cancel execution; raise e

  handled :
      (s : Store) (r : Result Unit) (s' : Store)
      → Attempted s r s'
      → Distinct (ids_of s)
      → Ran (suc n) s (handle r on_failure s').0 (handle r on_failure s').1
  handled s (ok a) s' tried d = record { evolves = tried.evolves; fueled = λ _ e. cc }
  handled s (err e) s' tried d =
      let after : Runs n (on_failure e) s' =
        Runs-seq _ _ s' (cancels execution s' (rw tried.evolves.same_ids d))
          (λ _. Runs-raise e _ (λ p. tried.fine (cc))) in
      record {
        evolves = Evolves-trans tried.evolves after.ran.evolves;
        fueled = λ few. after.ran.fueled (omega (arith, tried.fewer));
      }

  module _ (id : ℕ) (s : Store) (now : status_of id s ≡ some TaskStatus.scheduled) where
    pub start_task-Runs : Distinct (ids_of s) → Runs (suc n) (start_task w cancel execution id) s
    unfolding start_task
    start_task-Runs d = record {
      ran =
          rw (set_task_status_ok id TaskStatus.pending s now)
            (handled s _ _ (begin-Attempted w id s now) d);
    }

    settled :
        (r : Result Unit) (s' : Store) {a : Unit {0}}
        → Outcome w id (with_status id TaskStatus.pending s) r s'
        → (handle r on_failure s').0 ≡ ok a
        → (handle r on_failure s').1.execution ≡ (with_status id TaskStatus.pending s).execution
    settled r s' unplaced h =
        absurd (raised (cancel execution s').0 call_failed (cancel execution s').1 h)
    settled r s' refused h =
        absurd (raised (cancel execution s').0 call_failed (cancel execution s').1 h)
    settled r s' accepted h = refl

    pub start_task-ok :
        {a : Unit {0}}
        → (start_task w cancel execution id s).0 ≡ ok a
        → (start_task w cancel execution id s).1.execution
          ≡ (with_status id TaskStatus.pending s).execution
    unfolding start_task
    start_task-ok h = rw (set_task_status_ok id TaskStatus.pending s now) (
        settled _ _
          (begin-Outcome w id (with_status id TaskStatus.pending s) (pending_now w id s now))
          (rw (set_task_status_ok id TaskStatus.pending s now) at h))

pub then_pure :
    {A B : Type 0} (r : Result A) (b : B) (s : Store) {p : B}
    → (and_then r (λ _. pure b) s).0 ≡ ok p
    → (a : A) × (r ≡ ok a) × (b ≡ p) × ((and_then r (λ _. pure b) s).1 ≡ s)
then_pure (ok a) b s h = (a, refl, cc, refl)
then_pure (err e) b s h = cc

-- One round of the loop: the map stays that of the rows, and only a failed start touches the
-- status of the execution.
pub record Steps (n : ℕ) (m : M Progress) (s : Store) : Type 0 where
  pub runs : Runs (suc n) m s
  pub synced : (p : Progress) → (m s).0 ≡ ok p → p.0 ≡ status_map (tasks_of (m s).1)
  pub same_status : (p : Progress) → (m s).0 ≡ ok p → (m s).1.execution.status ≡ s.execution.status

Steps-pure : (n : ℕ) (p : Progress) (s : Store) → p.0 ≡ status_map (tasks_of s) → Steps n (pure p) s
Steps-pure n p s sync = record {
  runs = Runs-pure p s;
  synced = λ q e. cc;
  same_status = λ q e. refl;
}

Steps-raise : (n : ℕ) (e : Error) (s : Store) → e ≢ out_of_fuel → Steps n (raise e) s
Steps-raise n e s other = record {
  runs = Runs-raise e s other;
  synced = λ q h. cc;
  same_status = λ q h. refl;
}

pub bound_ok :
    {A B : Type 0} (r : Result A) (f : A → M B) (s : Store) {q : B}
    → (and_then r f s).0 ≡ ok q
    → (a : A) × (r ≡ ok a) × ((f a s).0 ≡ ok q) × ((and_then r f s).1 ≡ (f a s).1)
bound_ok (ok a) f s h = (a, refl, h, refl)
bound_ok (err e) f s h = cc

pub Steps-bind :
    (n : ℕ) (m : M Progress) (f : Progress → M Progress) (s : Store)
    → Steps n m s
    → ((p : Progress) → (m s).0 ≡ ok p → Steps n (f p) (m s).1)
    → Steps n (m >>= f) s
Steps-bind n m f s first rest = record {
  runs = Runs-bind m f s first.runs (λ p e. (rest p e).runs);
  synced = λ q h.
      let (p, fine, done, stays) = bound_ok (m s).0 f (m s).1 h in
      rw stays ((rest p fine).synced q done);
  same_status = λ q h.
      let (p, fine, done, stays) = bound_ok (m s).0 f (m s).1 h in
      rw stays ((rest p fine).same_status q done ∙ first.same_status p fine);
}

Steps-write :
    (n : ℕ) (m : M Unit) (id : ℕ) (v : TaskStatus) (statuses : Dict TaskStatus) (started : List ℕ)
    (s : Store) {a : TaskStatus}
    → status_of id s ≡ some a
    → Runs (suc n) m s
    → ((u : Unit {0}) → (m s).0 ≡ ok u → (m s).1.execution ≡ (with_status id v s).execution)
    → statuses ≡ status_map (tasks_of s)
    → Steps n (m >> pure (insert id v statuses, started)) s
Steps-write n m id v statuses started s now runs written sync = record {
  runs = Runs-seq _ _ s runs (λ _. Runs-pure _ _);
  synced = λ q h.
      let (u, fine, made, stays) = then_pure (m s).0 (insert id v statuses, started) (m s).1 h in
      let rows : tasks_of (m s).1 ≡ set_status id v (tasks_of s) =
        ap (λ e. e.tasks) (written u fine) in
      rw (← made, stays, rows, sync) (status_map-set_status id v (tasks_of s) now);
  same_status = λ q h.
      let (u, fine, made, stays) = then_pure (m s).0 (insert id v statuses, started) (m s).1 h in
      rw stays (ap (λ e. e.status) (written u fine));
}

module _ (n : ℕ) (w : World) (cancel : Execution → M Unit) (execution : Execution)
    (cancels : Cancels n cancel) where
  module _ (p : Progress) (s : Store) (sync : p.0 ≡ status_map (tasks_of s))
      (d : Distinct (ids_of s)) where
    apply_decision-Steps :
        (id : ℕ) (decision : Decision)
        → status_of id s ≡ some TaskStatus.scheduled
        → Steps n (apply_decision w cancel execution p id decision) s
    unfolding apply_decision
    apply_decision-Steps id start now =
        Steps-write n (start_task w cancel execution id) id TaskStatus.pending p.0 _ s now
          (start_task-Runs n w cancel execution cancels id s now d)
          (λ u h. start_task-ok n w cancel execution cancels id s now h) sync
    apply_decision-Steps id unschedule now =
        Steps-write n (set_task_status id TaskStatus.unscheduled) id TaskStatus.unscheduled p.0 _ s
          now (Runs-set_task_status id _ s now (edge Diagram.unschedule) (omega arith))
          (λ u h.
            ap (λ (r : Result Unit × Store). r.1.execution)
              (set_task_status_ok id TaskStatus.unscheduled s now))
          sync
    apply_decision-Steps id wait now = Steps-pure n p s sync

    advance_parents-Steps :
        (id : ℕ) (parents : Option (Dict TaskStatus))
        → status_of id s ≡ some TaskStatus.scheduled
        → Steps n (advance_parents w cancel execution p id parents) s
    unfolding advance_parents
    advance_parents-Steps id none now = Steps-raise n key_error s (λ e. cc)
    advance_parents-Steps id (some parents) now = apply_decision-Steps id _ now

    advance_scheduled-Steps :
        (id : ℕ) (deps : List ℕ)
        → status_of id s ≡ some TaskStatus.scheduled
        → Steps n (advance_scheduled w cancel execution p id deps) s
    unfolding advance_scheduled
    advance_scheduled-Steps id [] now = apply_decision-Steps id start now
    advance_scheduled-Steps id (x ∷ xs) now =
        advance_parents-Steps id (parent_statuses p.0 (x ∷ xs)) now

    Steps-if :
        (b : Bool) (m k : M Progress)
        → (b ≡ true → Steps n m s)
        → Steps n k s
        → Steps n (if b then m else k) s
    Steps-if true m k h h' = h refl
    Steps-if false m k h h' = h'

    is_scheduled-eq : (a : TaskStatus) → is_scheduled a ≡ true → a ≡ TaskStatus.scheduled
    is_scheduled-eq a h = ground arith

    advance_found-Steps :
        (t : Task) (o : Option TaskStatus)
        → status_of t.id s ≡ o
        → Steps n (advance_found w cancel execution p t o) s
    unfolding advance_found
    advance_found-Steps t none now = Steps-raise n key_error s (λ e. cc)
    advance_found-Steps t (some a) now =
        Steps-if (is_scheduled a) _ _
          (λ h. advance_scheduled-Steps t.id t.depends_on (now ∙ ap some (is_scheduled-eq a h)))
          (Steps-pure n p s sync)

    pub advance_one-Steps : (t : Task) → Steps n (advance_one w cancel execution p t) s
    unfolding advance_one
    advance_one-Steps t =
        advance_found-Steps t (lookup t.id p.0)
          (sym (ap (lookup t.id) sync ∙ lookup-status_map t.id (tasks_of s)))
