-- ===== src/Conductor/ErrorRuns.antt =====
-- A report of an error, which cancels the execution or keeps it for debugging.
use cloudshift.Prelude.{
  ℕ, ◌≡◌, refl, ◌∙◌, Bool, true, false, not, ◌&&◌, ◌||◌, some, List, [], ◌∷◌, filter, is_empty, All,
  ◌==◌, Bool-cases, ==_iff, inl, inr, arith,
}
use cloudshift.Constants.{TaskStatus, ExecutionStatus, is_active, is_scheduled, is_on_error_only}
use cloudshift.Conductor.Store.{Task, Store, World, status_of, tasks_of}
use cloudshift.Conductor.Effects.{
  M, Result, ok, err, Error, coriolis_error, raise, and_then, for_each, set_task_status,
}
use cloudshift.Conductor.Reports.{
  is_os_morphing, debug_one, cancel_execution_for_debugging, after_error, error_with, error_status,
  set_task_error,
}
use cloudshift.Conductor.Diagram
use cloudshift.Conductor.Diagram.{here, edge, is_launchable}
use cloudshift.Conductor.Evolves.{ids, Distinct, ids_of}
use cloudshift.Conductor.Runs.{Runs, Runs-pure, Runs-raise, Runs-seq, Runs-if, Runs-set_task_status}
use cloudshift.Conductor.Quiet.{Quiet-Runs, set_tasks_execution_status-Quiet}
use cloudshift.Conductor.Touches.{
  Touches, Touches-pure, Touches-if, Touches-set_task_status, set_task_status_sets,
}
use cloudshift.Conductor.Tracking.{Tracked, Tracked-frame, tracked_rows}
use cloudshift.Conductor.ReportRuns.{Runs-get_task, run_cancel-Runs}
use cloudshift.Conductor.HandlerRuns.{Fits, error-Fits, Runs-get_tasks_execution}

Touches-raise : {A : Type 0} (id : ℕ) (e : Error) → Touches id (raise {A = A} e)
Touches-raise id e = record { frame = λ s j h. refl }

waits : (a : TaskStatus) → (is_scheduled a || is_on_error_only a) ≡ true → is_launchable a ≡ true
waits a h = ground arith

debug_one-Touches : (t : Task) → Touches t.id (debug_one t)
unfolding debug_one
debug_one-Touches t = Touches-if t.id (is_os_morphing t.task_type) _ _ (Touches-pure t.id tt) (
    Touches-if t.id (is_active t.status) _ _ (Touches-raise t.id coriolis_error) (
      Touches-if t.id (is_scheduled t.status || is_on_error_only t.status) _ _
        (Touches-set_task_status t.id _) (Touches-pure t.id tt)))

-- A task that was started keeps its status.
debug_one-started :
    (t : Task) (s : Store) (a : TaskStatus)
    → Tracked s t
    → status_of t.id s ≡ some a
    → is_launchable a ≡ false
    → (debug_one t s).1 ≡ s
unfolding debug_one
debug_one-started t s a tracked now started = elim (Bool-cases (is_os_morphing t.task_type)) [
  | inl morphing ↦ rw morphing refl
  | inr other ↦ rw other (elim (Bool-cases (is_active t.status)) [
    | inl active ↦ rw active refl
    | inr idle ↦ rw (idle, not_waiting) refl
  ])
]
  where
    same : t.status ≡ a
    same = cc

    not_waiting : (is_scheduled t.status || is_on_error_only t.status) ≡ false
    not_waiting = ground arith

module _ (n : ℕ) where
  debug_one-Runs : (t : Task) (s : Store) → Tracked s t → Runs n (debug_one t) s
  unfolding debug_one
  debug_one-Runs t s now =
      Runs-if (is_os_morphing t.task_type) _ _ s (λ _. Runs-pure tt s)
        (λ _.
          Runs-if (is_active t.status) _ _ s (λ _. Runs-raise coriolis_error s (λ e. cc))
            (λ _.
              Runs-if (is_scheduled t.status || is_on_error_only t.status) _ _ s
                (λ h.
                  Runs-set_task_status t.id _ s now (edge (Diagram.debug (waits t.status h)))
                    (omega arith))
                (λ _. Runs-pure tt s)))

  debug_each-Runs :
      (ts : List Task) (s : Store)
      → All (Tracked s) ts
      → Distinct (ids ts)
      → Runs n (for_each debug_one ts) s
  unfolding for_each
  debug_each-Runs [] s tracked d = Runs-pure tt s
  debug_each-Runs (t ∷ ts) s tracked d = Runs-seq _ _ s (debug_one-Runs t s tracked.0) (λ _.
      debug_each-Runs ts (debug_one t s).1
        (Tracked-frame s (debug_one t s).1 t.id ts ((debug_one-Touches t).frame s) d.0 tracked.1)
        d.1)

then_keeps :
    {A B : Type 0} (P : Store → Type 0) (r : Result A) (k : M B) (s : Store)
    → P s
    → P (k s).1
    → P (and_then r (λ _. k) s).1
then_keeps P (ok a) k s here_now later = later
then_keeps P (err e) k s here_now later = here_now

module _ (id : ℕ) (a : TaskStatus) (started : is_launchable a ≡ false) where
  debug_one-keeps :
      (t : Task) (s : Store)
      → Tracked s t
      → status_of id s ≡ some a
      → status_of id (debug_one t s).1 ≡ some a
  debug_one-keeps t s tracked now = elim (Bool-cases (t.id == id)) [
    | inl same ↦
        let at_t : status_of t.id s ≡ some a = cc ((==_iff t.id id).0 same) in
        rw (debug_one-started t s a tracked at_t started) now
    | inr other ↦ (debug_one-Touches t).frame s id other ∙ now
  ]

  debug_each-keeps :
      (ts : List Task) (s : Store)
      → All (Tracked s) ts
      → Distinct (ids ts)
      → status_of id s ≡ some a
      → status_of id (for_each debug_one ts s).1 ≡ some a
  unfolding for_each
  debug_each-keeps [] s tracked d now = now
  debug_each-keeps (t ∷ ts) s tracked d now =
      let s1 : Store = (debug_one t s).1 in
      let now1 = debug_one-keeps t s tracked.0 now in
      then_keeps (λ s'. status_of id s' ≡ some a) (debug_one t s).0 (for_each debug_one ts) s1 now1
        (debug_each-keeps ts s1
          (Tracked-frame s s1 t.id ts ((debug_one-Touches t).frame s) d.0 tracked.1) d.1 now1)

error_started : (a : TaskStatus) → is_launchable (error_status a) ≡ false
unfolding error_status
error_started TaskStatus.cancelling = refl
error_started _ = refl

module _ (n : ℕ) (w : World) where
  after_error-Runs :
      (id : ℕ) (b : TaskStatus) (flag : Bool) (s : Store)
      → is_launchable b ≡ false
      → status_of id s ≡ some b
      → Distinct (ids_of s)
      → Runs n (after_error w id b flag s.execution) s
  unfolding after_error cancel_execution_for_debugging
  after_error-Runs id b false s started now d = run_cancel-Runs n w s.execution false s d
  after_error-Runs id b true s started now d =
      let ts = tasks_of s in
      let tracked = tracked_rows ts d in
      Runs-if (is_empty (filter (λ t. is_active t.status && not (is_os_morphing t.task_type)) ts)) _
        _ s
        (λ _. Runs-seq _ _ s (debug_each-Runs n ts s tracked d) (λ _.
          let s1 : Store = (for_each debug_one ts s).1 in
          let now1 = debug_each-keeps id b started ts s tracked d now in
          Runs-seq _ _ s1 (Runs-set_task_status id b s1 now1 here (omega arith)) (λ _.
            Quiet-Runs _ _ (
              set_tasks_execution_status-Quiet w s.execution
                ExecutionStatus.canceled_for_debugging))))
        (λ _. run_cancel-Runs n w s.execution false s d)

  error_with-Runs :
      (id : ℕ) (b : TaskStatus) (s : Store) {a : TaskStatus}
      → status_of id s ≡ some a
      → Fits a b
      → is_launchable b ≡ false
      → Distinct (ids_of s)
      → Runs n (error_with w id b) s
  unfolding error_with
  error_with-Runs id b s now fits started d =
      Runs-seq _ _ s (Runs-set_task_status id b s now fits.0 fits.1) λ ev.
        let s1 : Store = (set_task_status id b s).1 in
        Runs-get_task n id _ s1 λ t _. Runs-get_tasks_execution n _ s1 (
          after_error-Runs id b (is_os_morphing t.task_type && w.debug_os_morphing_errors) s1
            started (set_task_status_sets id b s now) (rw ev.same_ids d))

  pub set_task_error-Runs :
      (id : ℕ) (s : Store) → Distinct (ids_of s) → Runs n (set_task_error w id) s
  unfolding set_task_error
  set_task_error-Runs id s d = Runs-get_task n id _ s λ t now.
      error_with-Runs id (error_status t.status) s now (error-Fits t.status)
        (error_started t.status) d
