-- ===== src/Conductor/Quiet.antt =====
-- Statements that leave the tasks alone and ask no worker to begin one.
use cloudshift.Prelude.{
  ℕ, ◌≡◌, refl, ap, ◌∙◌, ◌≢◌, Bool, true, false, Option, none, some, List, ◌∷◌, length,
  if◌then◌else◌,
}
use cloudshift.Constants.{ExecutionStatus}
use cloudshift.Conductor.Store.{Task, Execution, Store, World, Call, begin_task}
use cloudshift.Conductor.Effects.{
  Result, ok, err, Error, conflict, out_of_fuel, M, pure, raise, get, and_then, ◌>>=◌, ◌>>◌, invoke,
  set_execution_status,
}
use cloudshift.Conductor.Status.{
  is_awaiting, get_licensing_reservation, mark_reservation, check_mark_reservation_fulfilled,
  update_reservation_fulfillment, release_resources, set_tasks_execution_status,
}
use cloudshift.Conductor.Evolves.{begun}
use cloudshift.Conductor.Runs.{Runs, Runs-quiet}

-- The part of the execution that stays: its tasks, or all of it.
abbrev pub rows : Execution → List Task
rows e = e.tasks

abbrev pub whole : Execution → Execution
whole e = e

pub record Hushed {X A : Type 0} (part : Execution → X) (s : Store) (r : Result A) (s' : Store)
    : Type 0 where
  pub same_tasks : part s'.execution ≡ part s.execution
  pub same_begun : (id : ℕ) → begun id s'.log ≡ begun id s.log
  pub fine : r ≢ err out_of_fuel

pub record Quiet {X A : Type 0} (part : Execution → X) (m : M A) : Type 0 where
  pub hushed : (s : Store) → Hushed part s (m s).0 (m s).1

abbrev pub begins_none : Call → Bool
begins_none (begin_task _) = false
begins_none _ = true

pub Quiet-pure : {X A : Type 0} {part : Execution → X} (a : A) → Quiet part (pure a)
Quiet-pure a = record {
  hushed = λ s. record { same_tasks = refl; same_begun = λ _. refl; fine = λ e. cc };
}

pub Quiet-raise :
    {X A : Type 0} {part : Execution → X} (e : Error)
    → e ≢ out_of_fuel
    → Quiet part (raise {A = A} e)
Quiet-raise e other = record {
  hushed = λ s. record { same_tasks = refl; same_begun = λ _. refl; fine = λ p. other (cc) };
}

pub Quiet-get : {X : Type 0} {part : Execution → X} → Quiet part get
Quiet-get = record {
  hushed = λ s. record { same_tasks = refl; same_begun = λ _. refl; fine = λ e. cc };
}

Hushed-and_then :
    {X A B : Type 0} {part : Execution → X} (s s' : Store) (r : Result A) (f : A → M B)
    → Hushed part s r s'
    → ((a : A) → Quiet part (f a))
    → Hushed part s (and_then r f s').0 (and_then r f s').1
Hushed-and_then s s' (ok a) f h rest =
    let k = (rest a).hushed s' in
    record {
      same_tasks = k.same_tasks ∙ h.same_tasks;
      same_begun = λ id. k.same_begun id ∙ h.same_begun id;
      fine = k.fine;
    }
Hushed-and_then s s' (err e) f h rest = record {
  same_tasks = h.same_tasks;
  same_begun = h.same_begun;
  fine = λ p. h.fine (cc);
}

pub Quiet-bind :
    {X A B : Type 0} {part : Execution → X} (m : M A) (f : A → M B)
    → Quiet part m
    → ((a : A) → Quiet part (f a))
    → Quiet part (m >>= f)
Quiet-bind m f h rest = record {
  hushed = λ s. Hushed-and_then s (m s).1 (m s).0 f (h.hushed s) rest;
}

pub Quiet-seq :
    {X A B : Type 0} {part : Execution → X} (m : M A) (k : M B)
    → Quiet part m
    → Quiet part k
    → Quiet part (m >> k)
Quiet-seq m k h rest = record {
  hushed = λ s. Hushed-and_then s (m s).1 (m s).0 (λ _. k) (h.hushed s) (λ _. rest);
}

pub Quiet-if :
    {X A : Type 0} {part : Execution → X} (b : Bool) (m k : M A)
    → Quiet part m
    → Quiet part k
    → Quiet part (if b then m else k)
Quiet-if true m k h h' = h
Quiet-if false m k h h' = h'

begun-quiet :
    (id : ℕ) (c : Call) (cs : List Call) → begins_none c ≡ true → begun id (c ∷ cs) ≡ begun id cs
unfolding begun
begun-quiet id (begin_task j) cs h = cc
begun-quiet id _ cs h = refl

answer-fine : (b : Bool) → (if b then ok tt else err Error.call_failed) ≢ err out_of_fuel
answer-fine true e = cc
answer-fine false e = cc

module _ (w : World) where
  pub Quiet-invoke :
      {X : Type 0} {part : Execution → X} (c : Call)
      → begins_none c ≡ true
      → Quiet part (invoke w c)
  unfolding invoke
  Quiet-invoke c h = record {
    hushed = λ s. record {
      same_tasks = refl;
      same_begun = λ id. begun-quiet id c s.log h;
      fine = answer-fine (w.succeeds (length s.log) c);
    };
  }

  get_licensing_reservation-Quiet : (id : Option ℕ) → Quiet rows (get_licensing_reservation w id)
  unfolding get_licensing_reservation
  get_licensing_reservation-Quiet none = Quiet-pure none
  get_licensing_reservation-Quiet (some id) =
      Quiet-if w.licensing _ _
        (Quiet-bind get _ Quiet-get
          λ s. Quiet-seq _ _ (Quiet-invoke Call.get_reservation refl) (Quiet-pure _))
        (Quiet-pure none)

  mark_reservation-Quiet :
      (must : Bool) (id : Option ℕ) (answer : Option Bool)
      → Quiet rows (mark_reservation w must id answer)
  unfolding mark_reservation
  mark_reservation-Quiet must id none = Quiet-pure tt
  mark_reservation-Quiet must id (some true) =
      Quiet-if must _ _ (Quiet-raise conflict (λ e. cc)) (Quiet-pure tt)
  mark_reservation-Quiet must none (some false) = Quiet-pure tt
  mark_reservation-Quiet must (some id) (some false) =
      Quiet-invoke (Call.mark_reservation_fulfilled id) refl

  release_resources-Quiet : (e : Execution) → Quiet rows (release_resources w e)
  unfolding release_resources
  release_resources-Quiet e =
      Quiet-seq _ _
        (Quiet-if (is_awaiting e.status) _ _ (Quiet-pure tt)
          (Quiet-invoke Call.deallocate_minions refl))
        (Quiet-bind get _ Quiet-get
          λ s. Quiet-if s.delete_trust_id _ _ (Quiet-invoke Call.delete_trust refl) (Quiet-pure tt))

  update_reservation_fulfillment-Quiet :
      (e : Execution) → Quiet rows (update_reservation_fulfillment w e)
  unfolding update_reservation_fulfillment check_mark_reservation_fulfilled
  update_reservation_fulfillment-Quiet e =
      Quiet-if _ _ _
        (Quiet-bind _ _ (get_licensing_reservation-Quiet e.reservation_id)
          (mark_reservation-Quiet false e.reservation_id))
        (Quiet-pure tt)

  set_execution_status-Quiet : (status : ExecutionStatus) → Quiet rows (set_execution_status status)
  unfolding set_execution_status
  set_execution_status-Quiet status = record {
    hushed = λ s. record { same_tasks = refl; same_begun = λ _. refl; fine = λ e. cc };
  }

  -- A change of the execution's status leaves the tasks alone, whatever it sets off.
  pub set_tasks_execution_status-Quiet :
      (e : Execution) (status : ExecutionStatus)
      → Quiet rows (set_tasks_execution_status w e status)
  unfolding set_tasks_execution_status
  set_tasks_execution_status-Quiet e status =
      Quiet-seq _ _ (Quiet-if _ _ _ (update_reservation_fulfillment-Quiet e) (Quiet-pure tt)) (
        Quiet-seq _ _ (Quiet-if _ _ _ (release_resources-Quiet e) (Quiet-pure tt))
          (set_execution_status-Quiet status))

pub Quiet-Runs : {n : ℕ} {A : Type 0} (m : M A) (s : Store) → Quiet rows m → Runs n m s
Quiet-Runs m s q = let h = q.hushed s in Runs-quiet m s h.same_tasks h.same_begun h.fine

pub Quiet-rows : {A : Type 0} (m : M A) → Quiet whole m → Quiet rows m
Quiet-rows m q = record {
  hushed = λ s.
      let h = q.hushed s in
      record { same_tasks = ap rows h.same_tasks; same_begun = h.same_begun; fine = h.fine };
}
