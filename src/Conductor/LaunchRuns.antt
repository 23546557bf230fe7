-- ===== src/Conductor/LaunchRuns.antt =====
-- The start of an execution moves its tasks along the diagram.
use cloudshift.Prelude.{
  ℕ, suc, ◌≡◌, refl, ap, subst, ◌∙◌, Bool, true, false, ◌&&◌, some, List, [], ◌∷◌, ◌++◌, is_empty,
  All, Bool-cases, inl, inr, arith,
}
use cloudshift.Constants.{TaskStatus, ExecutionStatus, is_scheduled}
use cloudshift.Conductor.Store.{
  Task, Execution, Store, World, create_trust, status_in, status_of, tasks_of,
}
use cloudshift.Conductor.Effects.{
  M, Result, ok, invalid_action_tasks_execution_state, pure, ◌>>◌, for_fold,
}
use cloudshift.Conductor.Engine.{run_cancel}
use cloudshift.Conductor.Advance.{start_task}
use cloudshift.Conductor.Launch.{begin_one, finish_begin, ensure_trust, begin_tasks}
use cloudshift.Conductor.Evolves.{ids, Distinct, ids_of, status_of-with_status}
use cloudshift.Conductor.Runs.{Runs, Runs-pure, Runs-raise, Runs-seq, Runs-bind, Runs-if}
use cloudshift.Conductor.Quiet.{
  Quiet, rows, Quiet-Runs, Quiet-pure, Quiet-get, Quiet-bind, Quiet-seq, Quiet-if, Quiet-invoke,
  set_tasks_execution_status-Quiet,
}
use cloudshift.Conductor.Tracking.{Tracked, Tracked-frame, tracked_rows}
use cloudshift.Conductor.Touches.{Frame}
use cloudshift.Conductor.LoopRuns.{start_task-Runs, start_task-ok, then_pure}
use cloudshift.Conductor.ReportRuns.{run_cancel-Runs}

is_scheduled-eq : (a : TaskStatus) → is_scheduled a ≡ true → a ≡ TaskStatus.scheduled
is_scheduled-eq a h = ground arith

second : (a b : Bool) → (a && b) ≡ true → b ≡ true
second a b h = ground arith

module _ (n : ℕ) (w : World) where
  ensure_trust-Quiet : (b : Bool) → Quiet rows (ensure_trust w b)
  unfolding ensure_trust
  ensure_trust-Quiet b = Quiet-bind _ _ Quiet-get λ s. Quiet-if s.trust_id _ _ (Quiet-pure tt) (
      Quiet-seq _ _ (Quiet-invoke w create_trust refl) (record {
        hushed = λ s. record { same_tasks = refl; same_begun = λ _. refl; fine = λ e. cc };
      }))

  module _ (execution : Execution) where
    abbrev canceler : Execution → M Unit
    canceler e = run_cancel w e true false

    begin_one-Runs :
        (started : List ℕ) (t : Task) (s : Store)
        → Tracked s t
        → Distinct (ids_of s)
        → Runs (suc n) (begin_one w execution started t) s
    unfolding begin_one
    begin_one-Runs started t s tracked d =
        Runs-if (is_empty t.depends_on && is_scheduled t.status) _ _ s
          (λ h.
            Runs-seq _ _ s
              (start_task-Runs n w canceler execution (λ e s' d'. run_cancel-Runs n w e false s' d')
                t.id s (tracked ∙ ap some (is_scheduled-eq t.status (second _ _ h))) d)
              (λ _. Runs-pure _ _))
          (λ _. Runs-pure _ s)

    started-Frame :
        (id : ℕ) (ids : List ℕ) (s : Store) {r : List ℕ}
        → status_of id s ≡ some TaskStatus.scheduled
        → Distinct (ids_of s)
        → ((start_task w canceler execution id >> pure ids) s).0 ≡ ok r
        → Frame id s ((start_task w canceler execution id >> pure ids) s).1
    started-Frame id ids s now d fine j other =
        let cancels = λ (e : Execution) (s' : Store) (d' : Distinct (ids_of s')).
          run_cancel-Runs n w e false s' d' in
        let m : Result Unit × Store = start_task w canceler execution id s in
        let (u, went, made, stays) = then_pure m.0 ids m.1 fine in
        let rows_of = start_task-ok n w canceler execution cancels id s now went in
        ap (status_of j) stays
        ∙ ap (λ (e : Execution). status_in j e.tasks) rows_of
        ∙ status_of-with_status id TaskStatus.pending s now j
        ∙ rw other refl

    begin_one-Frame :
        (started : List ℕ) (t : Task) (s : Store) {r : List ℕ}
        → Tracked s t
        → Distinct (ids_of s)
        → (begin_one w execution started t s).0 ≡ ok r
        → Frame t.id s (begin_one w execution started t s).1
    unfolding begin_one
    begin_one-Frame started t s tracked d fine j other =
        elim (Bool-cases (is_empty t.depends_on && is_scheduled t.status)) [
          | inl h ↦ rw h (
              started-Frame t.id (started ++ t.id ∷ []) s
                (tracked ∙ ap some (is_scheduled-eq t.status (second _ _ h))) d (rw h at fine) j
                other)
          | inr h ↦ rw h refl
        ]

    begin_each-Runs :
        (ts : List Task) (started : List ℕ) (s : Store)
        → All (Tracked s) ts
        → Distinct (ids ts)
        → Distinct (ids_of s)
        → Runs (suc n) (for_fold (begin_one w execution) started ts) s
    unfolding for_fold
    begin_each-Runs [] started s tracked dt d = Runs-pure started s
    begin_each-Runs (t ∷ ts) started s tracked dt d =
        let first = begin_one-Runs started t s tracked.0 d in
        let s1 : Store = (begin_one w execution started t s).1 in
        Runs-bind _ _ s first λ more fine.
          begin_each-Runs ts more s1
            (Tracked-frame s s1 t.id ts (begin_one-Frame started t s tracked.0 d fine) dt.0
              tracked.1)
            dt.1 (rw first.ran.evolves.same_ids d)

    finish_begin-Runs : (started : List ℕ) (s : Store) → Runs n (finish_begin w execution started) s
    unfolding finish_begin
    finish_begin-Runs [] s = Runs-raise invalid_action_tasks_execution_state s (λ e. cc)
    finish_begin-Runs (x ∷ xs) s =
        Quiet-Runs _ s (set_tasks_execution_status-Quiet w execution ExecutionStatus.running)

module _ (n : ℕ) (w : World) where
  pub begin_tasks-Runs :
      (b : Bool) (s : Store) → Distinct (ids_of s) → Runs (suc n) (begin_tasks w s.execution b) s
  unfolding begin_tasks
  begin_tasks-Runs b s d =
      let q = ensure_trust-Quiet n w b in
      let same = (q.hushed s).same_tasks in
      let s1 : Store = (ensure_trust w b s).1 in
      let first : Runs (suc n) (ensure_trust w b) s = Quiet-Runs _ s q in
      Runs-seq _ _ s first λ ev.
        Runs-bind _ _ s1
          (begin_each-Runs n w s.execution (tasks_of s) [] s1
            (subst (λ ts. All (Tracked s1) ts) same (tracked_rows (tasks_of s1) (rw ev.same_ids d)))
            d (rw ev.same_ids d))
          (λ started _. finish_begin-Runs (suc n) w s.execution started _)
