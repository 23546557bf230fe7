-- ===== src/Conductor/Agreement.antt =====
-- conductor/rpc/server.py, `_advance_execution_state`: the status that an execution is left with.
use cloudshift.Prelude.{
  ℕ, ◌≡◌, refl, ap, sym, subst, ◌∙◌, Bool, true, false, not, any, Option, List, [], ◌∷◌, map, Dict,
  length, is_empty, ◌⊎◌, if◌then◌else◌, Bool-cases, inl, inr, arith,
}
use cloudshift.Constants.{
  TaskStatus, ExecutionStatus, is_finalized_execution, is_active_execution, is_active,
  same_execution_status,
}
use cloudshift.Conductor.Store.{Task, Execution, Store, World, tasks_of}
use cloudshift.Conductor.Effects.{
  ok, M, pure, ◌>>◌, set_execution_status, get_tasks_execution, for_each, for_fold,
}
use cloudshift.Conductor.Status.{
  is_completed_execution, update_reservation_fulfillment, release_resources, is_deadlocked,
  cancel_deadlocked, set_tasks_execution_status, overall_status, statuses_of, get_execution_status,
  clean_deadlock, status_map, check_clean_execution_deadlock,
}
use cloudshift.Conductor.Advance.{
  settle, finish_advance, Progress, is_deadlocked_execution, advance_one, advance_tasks,
  advance_current, advance_execution_state_with, of_instance,
}
use cloudshift.Conductor.Quiet.{set_tasks_execution_status-Quiet}
use cloudshift.Conductor.Verdict.{overall_status-finalized}
use cloudshift.Conductor.Stranding.{NoneActive, strand-NoneActive, statuses-status_map}
use cloudshift.Conductor.LoopRuns.{bound_ok, Cancels}
use cloudshift.Conductor.Cancel.{sort_tasks}
use cloudshift.Conductor.Engine.{run_advance, cancel_tasks_execution}
use cloudshift.Conductor.Evolves.{Distinct, ids_of}
use cloudshift.Conductor.AdvanceRuns.{advance_each-Steps, cancel_tasks_execution-Runs}

module _ {A B : Type 0} where
  -- Where a sequence succeeds, its first part did, and the second has the last word.
  pub seq_ok :
      (m : M A) (k : M B) (s : Store) {b : B}
      → ((m >> k) s).0 ≡ ok b
      → (a : A) × ((m s).0 ≡ ok a) × (((m >> k) s).1 ≡ (k (m s).1).1) × ((k (m s).1).0 ≡ ok b)
  seq_ok m k s h =
      let (a, first, done, same) = bound_ok (m s).0 (λ _. k) (m s).1 h in (a, first, same, done)

-- The status agrees with the tasks.
abbrev pub Agrees : Store → Type 0
Agrees s = s.execution.status ≡ overall_status (statuses_of (tasks_of s))

-- A deadlock was found, and no task is active.
abbrev pub Deadlocked : Store → Type 0
Deadlocked s = (s.execution.status ≡ ExecutionStatus.deadlocked) × NoneActive s

abbrev pub AgreesOrDeadlocked : Store → Type 0
AgreesOrDeadlocked s = Agrees s ⊎ Deadlocked s

same_status : (a b : ExecutionStatus) → same_execution_status a b ≡ true → a ≡ b
same_status a b h = ground arith

module _ (w : World) (execution : Execution) where
  pub status_set :
      (status : ExecutionStatus) (s : Store) {u : Unit {0}}
      → (set_tasks_execution_status w execution status s).0 ≡ ok u
      → (set_tasks_execution_status w execution status s).1.execution.status ≡ status
  unfolding set_tasks_execution_status set_execution_status
  status_set status s h =
      let first : M Unit =
        if is_completed_execution status
        then update_reservation_fulfillment w execution
        else pure tt in
      let second : M Unit =
        if is_finalized_execution status then release_resources w execution else pure tt in
      let (_, _, same, rest) = seq_ok first (second >> set_execution_status status) s h in
      let (_, _, same', _) = seq_ok second (set_execution_status status) (first s).1 rest in
      rw (same, same') refl

  -- Writing the status that the rows have makes the execution agree with them.
  set-Agrees :
      (s : Store) {u : Unit {0}}
      → (set_tasks_execution_status w execution (overall_status (statuses_of (tasks_of s))) s).0
        ≡ ok u
      → Agrees
          (set_tasks_execution_status w execution (overall_status (statuses_of (tasks_of s))) s).1
  set-Agrees s h =
      let latest = overall_status (statuses_of (tasks_of s)) in
      let same_rows = ((set_tasks_execution_status-Quiet w execution latest).hushed s).same_tasks in
      status_set latest s h ∙ ap (λ ts. overall_status (statuses_of ts)) (sym same_rows)

  settle-Agrees :
      (started : List ℕ) (s : Store) {r : List ℕ}
      → execution.status ≡ s.execution.status
      → (settle w execution started s).0 ≡ ok r
      → Agrees (settle w execution started s).1
  unfolding settle get_execution_status get_tasks_execution
  settle-Agrees started s current h =
      let latest = overall_status (statuses_of (tasks_of s)) in
      elim (Bool-cases (same_execution_status latest execution.status)) [
        | inl same ↦ rw same (sym (same_status latest execution.status same ∙ current))
        | inr differ ↦
            let write = set_tasks_execution_status w execution latest in
            let (_, fine, same, _) = seq_ok write (pure started) s (rw differ at h) in
            rw (differ, same) (set-Agrees s fine)
      ]

  -- A check for deadlocks that finds none writes nothing; otherwise the execution is DEADLOCKED.
  clean_deadlock-outcome :
      (stats : Dict TaskStatus) (s : Store) {state : ExecutionStatus}
      → map (λ e. e.1) stats ≡ statuses_of (tasks_of s)
      → (clean_deadlock w execution stats s).0 ≡ ok state
      → ((clean_deadlock w execution stats s).1 ≡ s) × (state ≡ ExecutionStatus.running)
        ⊎ Deadlocked (clean_deadlock w execution stats s).1 × (state ≡ ExecutionStatus.deadlocked)
  unfolding clean_deadlock
  clean_deadlock-outcome stats s sync h = elim (Bool-cases (is_deadlocked (map (λ e. e.1) stats))) [
    | inr free ↦ inl (rw free refl, ok_eq (rw free at h))
    | inl stuck ↦
        let each = for_each (cancel_deadlocked w) stats in
        let write = set_tasks_execution_status w execution ExecutionStatus.deadlocked in
        let last : M ExecutionStatus = pure ExecutionStatus.deadlocked in
        let (_, _, same, rest) = seq_ok each (write >> last) s (rw stuck at h) in
        let (_, fine, same', done) = seq_ok write last (each s).1 rest in
        let kept =
          ((set_tasks_execution_status-Quiet w execution ExecutionStatus.deadlocked).hushed
            (each s).1).same_tasks in
        let idle =
          strand-NoneActive w stats s (no_active (statuses_of (tasks_of s)) (rw sync at stuck)) in
        inr (
          rw (stuck, same, same')
              (
                status_set ExecutionStatus.deadlocked (each s).1 fine,
                subst (λ ts. any is_active (statuses_of ts) ≡ false) (sym kept) idle,
              ),
          ok_eq done,
        )
  ]
    where
      ok_eq : {A : Type 0} {a b : A} → ok a ≡ ok b → b ≡ a
      ok_eq e = cc

      no_active :
          (stats : List TaskStatus) → is_deadlocked stats ≡ true → any is_active stats ≡ false
      no_active stats h = ground arith

-- What the check for deadlocks has left of a store.
abbrev Checked : Store → ExecutionStatus → Store → Type 0
Checked s state s' =
    (s' ≡ s) × (state ≡ ExecutionStatus.running)
    ⊎ Deadlocked s' × (state ≡ ExecutionStatus.deadlocked)

module _ (w : World) (execution : Execution) (s : Store)
    (current : execution.status ≡ s.execution.status) where
  -- What follows the check.
  abbrev conclude : ExecutionStatus → M (List ℕ)
  conclude state = if is_deadlocked_execution state then pure [] else settle w execution []

  conclude-Agrees :
      (state : ExecutionStatus) (s' : Store) {r : List ℕ}
      → Checked s state s'
      → (conclude state s').0 ≡ ok r
      → AgreesOrDeadlocked (conclude state s').1
  conclude-Agrees state s' (inl (kept, runs)) h =
      rw (runs, kept) (inl (settle-Agrees w execution [] s current (rw (runs, kept) at h)))
  conclude-Agrees state s' (inr (stuck, found)) h = rw found (inr stuck)

  current_statuses :
      (statuses : Dict TaskStatus)
      → statuses ≡ status_map (tasks_of s)
      → map (λ e. e.1) (if is_empty statuses then status_map (tasks_of s) else statuses)
        ≡ statuses_of (tasks_of s)
  current_statuses [] e = statuses-status_map (tasks_of s)
  current_statuses (x ∷ xs) e = ap (λ m. map (λ e. e.1) m) e ∙ statuses-status_map (tasks_of s)

  finish_advance-Agrees :
      (p : Progress) {r : List ℕ}
      → p.0 ≡ status_map (tasks_of s)
      → (finish_advance w execution p s).0 ≡ ok r
      → AgreesOrDeadlocked (finish_advance w execution p s).1
  unfolding finish_advance check_clean_execution_deadlock get_tasks_execution
  finish_advance-Agrees (statuses, x ∷ xs) sync h =
      inl (settle-Agrees w execution (x ∷ xs) s current h)
  finish_advance-Agrees (statuses, []) sync h =
      let stats = if is_empty statuses then status_map (tasks_of s) else statuses in
      let check = clean_deadlock w s.execution stats in
      let (state, fine, done, same) = bound_ok (check s).0 conclude (check s).1 h in
      subst AgreesOrDeadlocked (sym same) (
        conclude-Agrees state (check s).1
          (clean_deadlock-outcome w s.execution stats s (current_statuses statuses sync) fine) done)

module _ (n : ℕ) (w : World) (cancel : Execution → M Unit) (cancels : Cancels n cancel) where
  advance_tasks-Agrees :
      (ts : List Task) (s : Store) {r : List ℕ}
      → Distinct (ids_of s)
      → (advance_tasks w cancel s.execution ts s).0 ≡ ok r
      → AgreesOrDeadlocked (advance_tasks w cancel s.execution ts s).1
  unfolding advance_tasks
  advance_tasks-Agrees [] s d h = cc
  advance_tasks-Agrees (t ∷ ts) s d h =
      let start : Progress = (status_map (tasks_of s), []) in
      let loop = for_fold (advance_one w cancel s.execution) start (sort_tasks (t ∷ ts)) in
      let steps =
        advance_each-Steps n w cancel cancels s.execution (sort_tasks (t ∷ ts)) start s refl d in
      let (p, fine, done, same) = bound_ok (loop s).0 (finish_advance w s.execution) (loop s).1 h in
      subst AgreesOrDeadlocked (sym same) (
        finish_advance-Agrees w s.execution (loop s).1 (sym (steps.same_status p fine)) p
          (steps.synced p fine) done)

  advance_with-Agrees :
      (requery : Bool) (name : Option ℕ) (s : Store) {r : List ℕ}
      → Distinct (ids_of s)
      → is_active_execution s.execution.status ≡ true
      → (advance_execution_state_with w cancel s.execution requery name s).0 ≡ ok r
      → AgreesOrDeadlocked (advance_execution_state_with w cancel s.execution requery name s).1
  unfolding advance_execution_state_with advance_current get_tasks_execution
  advance_with-Agrees true name s d active h =
      rw active (advance_tasks-Agrees (of_instance name (tasks_of s)) s d (rw active at h))
  advance_with-Agrees false name s d active h =
      rw active (advance_tasks-Agrees (of_instance name (tasks_of s)) s d (rw active at h))

run_advance-Agrees :
    (w : World) (requery : Bool) (name : Option ℕ) (s : Store) {r : List ℕ}
    → Distinct (ids_of s)
    → is_active_execution s.execution.status ≡ true
    → (run_advance w s.execution requery name s).0 ≡ ok r
    → AgreesOrDeadlocked (run_advance w s.execution requery name s).1
unfolding run_advance cancel_tasks_execution
run_advance-Agrees w requery name s d active h =
    let n = length (tasks_of s) in
    advance_with-Agrees n w (λ e. cancel_tasks_execution w n e true false)
      (λ e s' d'. cancel_tasks_execution-Runs n w e true false s' d' tt) requery name s d active h

-- Where the advancement of an active execution succeeds, the status of the execution is a final one
-- exactly when no task is active, if the identifiers of the tasks are distinct.
pub run_advance-finalized :
    (w : World) (requery : Bool) (name : Option ℕ) (s : Store) {r : List ℕ}
    → Distinct (ids_of s)
    → is_active_execution s.execution.status ≡ true
    → (run_advance w s.execution requery name s).0 ≡ ok r
    → (let s' = (run_advance w s.execution requery name s).1 in
        is_finalized_execution s'.execution.status
        ≡ not (any is_active (statuses_of (tasks_of s'))))
run_advance-finalized w requery name s d active h =
    elim (run_advance-Agrees w requery name s d active h) [
      | inl agrees ↦ rw agrees (
          overall_status-finalized
            (statuses_of (tasks_of (run_advance w s.execution requery name s).1)))
      | inr (stuck, idle) ↦ rw (stuck, idle) refl
    ]
