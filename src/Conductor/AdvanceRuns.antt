-- ===== src/Conductor/AdvanceRuns.antt =====
-- A state advancement follows the diagram, and its fuel suffices.
use cloudshift.Prelude.{
  ℕ, zero, suc, ◌≡◌, refl, ap, Bool, true, false, not, ◌||◌, Option, List, [], ◌∷◌, map, All, Dict,
  is_empty, if◌then◌else◌, arith,
}
use cloudshift.Constants.{
  TaskStatus, ExecutionStatus, is_scheduled, is_on_error_only, is_active_execution,
  same_execution_status,
}
use cloudshift.Conductor.Store.{Task, Execution, Store, World, tasks_of}
use cloudshift.Conductor.Effects.{
  M, invalid_action_tasks_execution_state, for_fold, for_each, get_tasks_execution,
}
use cloudshift.Conductor.Status.{
  status_map, is_deadlocked, cancel_deadlocked, clean_deadlock, check_clean_execution_deadlock,
  get_execution_status, statuses_of, overall_status,
}
use cloudshift.Conductor.Cancel.{sort_tasks}
use cloudshift.Conductor.Advance.{
  Progress, advance_one, settle, finish_advance, advance_tasks, advance_current,
  advance_execution_state_with, of_instance, is_deadlocked_execution,
}
use cloudshift.Conductor.Engine.{advance_execution_state, cancel_tasks_execution}
use cloudshift.Conductor.Diagram.{edge, strand, is_launchable}
use cloudshift.Conductor.Evolves.{ids, Distinct, ids_of, Evolves-refl}
use cloudshift.Conductor.Runs.{
  Runs, Runs-pure, Runs-raise, Runs-seq, Runs-bind, Runs-if, Runs-set_task_status,
}
use cloudshift.Conductor.Quiet.{Quiet-Runs, set_tasks_execution_status-Quiet}
use cloudshift.Conductor.Touches.{Touches, Touches-if, Touches-pure, Touches-set_task_status}
use cloudshift.Conductor.Tracking.{Tracked, Tracked-frame, tracked_rows}
use cloudshift.Conductor.CancelRuns.{Fresh, Advances, cancel_tasks_execution_with-Runs}
use cloudshift.Conductor.LoopRuns.{Cancels, Steps, Steps-bind, advance_one-Steps}

module _ (n : ℕ) (w : World) where
  cancel_deadlocked-Runs :
      (t : Task) (s : Store) → Tracked s t → Runs n (cancel_deadlocked w (t.id, t.status)) s
  unfolding cancel_deadlocked
  cancel_deadlocked-Runs t s now =
      Runs-if (is_scheduled t.status || is_on_error_only t.status) _ _ s
        (λ h. Runs-set_task_status t.id _ s now (edge (strand (waits t.status h))) (omega arith))
        (λ _. Runs-pure tt s)
    where
      waits :
          (a : TaskStatus) → (is_scheduled a || is_on_error_only a) ≡ true → is_launchable a ≡ true
      waits a h = ground arith

  pub cancel_deadlocked-Touches : (t : Task) → Touches t.id (cancel_deadlocked w (t.id, t.status))
  unfolding cancel_deadlocked
  cancel_deadlocked-Touches t =
      Touches-if t.id (is_scheduled t.status || is_on_error_only t.status) _ _
        (Touches-set_task_status t.id _) (Touches-pure t.id tt)

  strand_each-Runs :
      (ts : List Task) (s : Store)
      → All (Tracked s) ts
      → Distinct (ids ts)
      → Runs n (for_each (cancel_deadlocked w) (status_map ts)) s
  unfolding for_each
  strand_each-Runs [] s tracked d = Runs-pure tt s
  strand_each-Runs (t ∷ ts) s tracked d =
      Runs-seq _ _ s (cancel_deadlocked-Runs t s tracked.0) (λ _.
        let s1 : Store = (cancel_deadlocked w (t.id, t.status) s).1 in
        strand_each-Runs ts s1
          (Tracked-frame s s1 t.id ts ((cancel_deadlocked-Touches t).frame s) d.0 tracked.1) d.1)

  clean_deadlock-Runs :
      (execution : Execution) (s : Store)
      → Distinct (ids_of s)
      → Runs n (clean_deadlock w execution (status_map (tasks_of s))) s
  unfolding clean_deadlock
  clean_deadlock-Runs execution s d =
      Runs-if (is_deadlocked (map (λ e. e.1) (status_map (tasks_of s)))) _ _ s
        (λ _. Runs-seq _ _ s (strand_each-Runs (tasks_of s) s (tracked_rows (tasks_of s) d) d) (λ _.
          Runs-seq _ _ _
            (Quiet-Runs _ _
              (set_tasks_execution_status-Quiet w execution ExecutionStatus.deadlocked))
            (λ _. Runs-pure _ _)))
        (λ _. Runs-pure _ s)

  -- The map of statuses is missing, or is that of the rows.
  abbrev pub Current : Dict TaskStatus → Store → Type 0
  Current statuses s =
      (if is_empty statuses then status_map (tasks_of s) else statuses) ≡ status_map (tasks_of s)

  check_clean-Runs :
      (given : Execution) (statuses : Dict TaskStatus) (requery : Bool) (s : Store)
      → Fresh requery given s
      → Current statuses s
      → Distinct (ids_of s)
      → Runs n (check_clean_execution_deadlock w given statuses requery) s
  unfolding check_clean_execution_deadlock get_tasks_execution
  check_clean-Runs given statuses true s fresh current d = record {
    ran = rw current (clean_deadlock-Runs s.execution s d).ran;
  }
  check_clean-Runs given statuses false s fresh current d =
      rw fresh (record { ran = rw current (clean_deadlock-Runs s.execution s d).ran })

  settle-Runs :
      (execution : Execution) (started : List ℕ) (s : Store) → Runs n (settle w execution started) s
  unfolding settle get_execution_status get_tasks_execution
  settle-Runs execution started s = record {
    ran =
        (Runs-seq _ _ s
          (Runs-if
            (same_execution_status (overall_status (statuses_of (tasks_of s))) execution.status) _ _
            s (λ _. Runs-pure tt s)
            (λ _. Quiet-Runs _ s (
              set_tasks_execution_status-Quiet w execution
                (overall_status (statuses_of (tasks_of s))))))
          (λ _. Runs-pure started _)).ran;
  }

  finish_advance-Runs :
      (execution : Execution) (p : Progress) (s : Store)
      → p.0 ≡ status_map (tasks_of s)
      → Distinct (ids_of s)
      → Runs n (finish_advance w execution p) s
  unfolding finish_advance
  finish_advance-Runs execution (statuses, x ∷ xs) s sync d = settle-Runs execution (x ∷ xs) s
  finish_advance-Runs execution (statuses, []) s sync d =
      Runs-bind _ _ s (check_clean-Runs execution statuses true s tt (current statuses sync) d)
        (λ state _.
          Runs-if (is_deadlocked_execution state) _ _ _ (λ _. Runs-pure [] _)
            (λ _. settle-Runs execution [] _))
    where
      current : (m : Dict TaskStatus) → m ≡ status_map (tasks_of s) → Current m s
      current [] e = refl
      current (x ∷ xs) e = e

module _ (n : ℕ) (w : World) (cancel : Execution → M Unit) (cancels : Cancels n cancel) where
  pub advance_each-Steps :
      (execution : Execution) (ts : List Task) (p : Progress) (s : Store)
      → p.0 ≡ status_map (tasks_of s)
      → Distinct (ids_of s)
      → Steps n (for_fold (advance_one w cancel execution) p ts) s
  unfolding for_fold
  advance_each-Steps execution [] p s sync d = record {
    runs = Runs-pure p s;
    synced = λ q e. cc;
    same_status = λ q e. refl;
  }
  advance_each-Steps execution (t ∷ ts) p s sync d =
      let first = advance_one-Steps n w cancel execution cancels p s sync d t in
      Steps-bind n _ _ s first (λ q fine.
        advance_each-Steps execution ts q _ (first.synced q fine)
          (rw first.runs.ran.evolves.same_ids d))

  advance_tasks-Runs :
      (execution : Execution) (ts : List Task) (s : Store)
      → execution ≡ s.execution
      → Distinct (ids_of s)
      → Runs (suc n) (advance_tasks w cancel execution ts) s
  unfolding advance_tasks
  advance_tasks-Runs execution [] s same d =
      Runs-raise invalid_action_tasks_execution_state s (λ e. cc)
  advance_tasks-Runs execution (t ∷ ts) s same d =
      let loop =
        advance_each-Steps execution (sort_tasks (t ∷ ts)) (status_map execution.tasks, []) s
          (ap (λ e. status_map e.tasks) same) d in
      Runs-bind _ _ s loop.runs (λ p fine.
        finish_advance-Runs (suc n) w execution p _ (loop.synced p fine)
          (rw loop.runs.ran.evolves.same_ids d))

  advance_current-Runs :
      (requery : Bool) (name : Option ℕ) (s : Store)
      → Distinct (ids_of s)
      → Runs (suc n) (advance_current w cancel requery name s.execution) s
  unfolding advance_current
  advance_current-Runs requery name s d =
      Runs-if (is_active_execution s.execution.status) _ _ s
        (λ _. advance_tasks-Runs s.execution (of_instance name s.execution.tasks) s refl d)
        (λ _.
          Runs-seq _ _ s
            (check_clean-Runs (suc n) w s.execution [] (not requery) s (fresh (not requery)) refl d)
            (λ _. Runs-pure [] _))
    where
      fresh : (r : Bool) → Fresh r s.execution s
      fresh true = tt
      fresh false = refl

  advance_with-Runs : Advances (suc n) (advance_execution_state_with w cancel)
  unfolding advance_execution_state_with get_tasks_execution
  advance_with-Runs given true name s d fresh = record {
    ran = (advance_current-Runs true name s d).ran;
  }
  advance_with-Runs given false name s d fresh =
      rw fresh (record { ran = (advance_current-Runs false name s d).ran })

-- With fuel above the number of tasks left to launch, a state advancement does not run out of it,
-- and it moves the tasks along the diagram, whatever the workers answer.
pub advance_execution_state-Advances :
    (fuel : ℕ) (w : World) → Advances fuel (advance_execution_state w fuel)
unfolding advance_execution_state
advance_execution_state-Advances zero w given requery name s d fresh = record {
  ran = record { evolves = Evolves-refl s; fueled = λ few. absurd (omega arith) };
}
advance_execution_state-Advances (suc n) w given requery name s d fresh =
    advance_with-Runs n w _
      (λ e s' d'.
        cancel_tasks_execution_with-Runs n w (advance_execution_state w n)
          (advance_execution_state-Advances n w) e true false s' d' tt)
      given requery name s d fresh

-- The same of a cancellation.
pub cancel_tasks_execution-Runs :
    (fuel : ℕ) (w : World) (given : Execution) (requery force : Bool) (s : Store)
    → Distinct (ids_of s)
    → Fresh requery given s
    → Runs fuel (cancel_tasks_execution w fuel given requery force) s
unfolding cancel_tasks_execution
cancel_tasks_execution-Runs fuel w given requery force s d fresh =
    cancel_tasks_execution_with-Runs fuel w (advance_execution_state w fuel)
      (advance_execution_state-Advances fuel w) given requery force s d fresh
