-- ===== src/Conductor/HandlerRuns.antt =====
-- The handlers of a worker's reports, one by one.
use cloudshift.Prelude.{
  ℕ, ◌≤◌, ◌≡◌, refl, sym, ◌∙◌, false, not, Option, none, some, List, [], ◌∷◌, Dict, ◌==◌,
  Bool-cases, inl, inr, arith,
}
use cloudshift.Constants.{TaskStatus, same_task_status}
use cloudshift.Conductor.Store.{
  Task, Execution, Store, World, put_task, status_in, status_of, tasks_of,
}
use cloudshift.Conductor.Effects.{
  M, not_found, key_error, task_is_cancelling, invalid_task_state, ◌>>=◌, ◌>>◌, get_task,
  get_tasks_execution, set_task_status, set_task_host_properties, replaced,
}
use cloudshift.Conductor.Results.{handle_post_task_actions}
use cloudshift.Conductor.Reports.{
  host_status, set_task_host, accepts_process, has_host, set_task_process, completion_status,
  confirmation_status, error_status, info_of, task_info_after, process_result, complete_with,
  task_completed, confirm_with, confirm_task_cancellation,
}
use cloudshift.Conductor.Diagram
use cloudshift.Conductor.Diagram.{here, then, edge, edges, ◌⟶◌, ◌⟶*◌, Moves-refl, is_launchable}
use cloudshift.Conductor.Rows.{to_launch, launchable}
use cloudshift.Conductor.Evolves.{ids, Distinct, ids_of}
use cloudshift.Conductor.Runs.{
  Runs, Runs-pure, Runs-raise, Runs-seq, Runs-bind, Runs-if, Runs-set_task_status,
}
use cloudshift.Conductor.Quiet.{
  Quiet, whole, Quiet-rows, Quiet-Runs, Quiet-pure, Quiet-raise, Quiet-get, Quiet-bind,
}
use cloudshift.Conductor.ResultRuns.{update_action_info-Quiet, handle_post_task_actions-Quiet}
use cloudshift.Conductor.ReportRuns.{Runs-get_task, run_advance-Runs, find_task-cases}

module _ (host process : Option ℕ) where
  abbrev with_host : Task → Task
  with_host t = record t { host = replaced host t.host; process_id = replaced process t.process_id }

  status_in-with_host :
      (id j : ℕ) (ts : List Task) → status_in j (put_task id with_host ts) ≡ status_in j ts
  unfolding status_in put_task
  status_in-with_host id j [] = refl
  status_in-with_host id j (t ∷ ts) = ground (arith, status_in-with_host id j ts)

  launchable-with_host :
      (id : ℕ) (ts : List Task) → launchable (put_task id with_host ts) ≡ launchable ts
  unfolding launchable put_task
  launchable-with_host id [] = refl
  launchable-with_host id (t ∷ ts) = elim (Bool-cases (t.id == id)) [
    | inl same ↦ rw same refl
    | inr other ↦ rw (other, launchable-with_host id ts) refl
  ]

  ids-with_host : (id : ℕ) (ts : List Task) → ids (put_task id with_host ts) ≡ ids ts
  unfolding put_task
  ids-with_host id [] = refl
  ids-with_host id (t ∷ ts) = ground (arith, ids-with_host id ts)

  -- A write of the host or of the process leaves the statuses alone.
  set_task_host_properties-Runs :
      (n id : ℕ) (s : Store)
      → Runs n (set_task_host_properties id host process) s
        × ((j : ℕ) → status_of j (set_task_host_properties id host process s).1 ≡ status_of j s)
  unfolding set_task_host_properties get_task
  set_task_host_properties-Runs n id s = elim (find_task-cases id (tasks_of s)) [
    | inl missing ↦ (
      record { ran = rw missing (Runs-raise {n = n} not_found s (λ e. cc)).ran },
      λ j. rw missing refl,
    )
    | inr (t, found, now) ↦ (
      record {
        ran = rw found (record {
          evolves = record {
            moves = λ j. rw (status_in-with_host id j (tasks_of s)) (Moves-refl _);
            launches = rw (launchable-with_host id (tasks_of s)) (omega arith);
            begins = λ j. rw (status_in-with_host id j (tasks_of s)) (omega arith);
            same_ids = ids-with_host id (tasks_of s);
          };
          fueled = λ _ e. cc;
        });
      },
      λ j. rw found (status_in-with_host id j (tasks_of s)),
    )
  ]

module _ (n : ℕ) where
  -- The write of a status after that of the host or of the process.
  host_then_status :
      (id : ℕ) (h p : Option ℕ) (s : Store) (b : TaskStatus) {a : TaskStatus}
      → status_of id s ≡ some a
      → a ⟶* b
      → to_launch (some b) ≤ to_launch (some a)
      → Runs n (set_task_host_properties id h p >> set_task_status id b) s
  host_then_status id h p s b now path less =
      let (written, same) = set_task_host_properties-Runs h p n id s in
      Runs-seq _ _ s written (λ _. Runs-set_task_status id b _ (same id ∙ now) path less)

  host_status-Runs :
      (a : TaskStatus) (f : TaskStatus → M Unit) (s : Store)
      → ((b : TaskStatus) → a ⟶* b → to_launch (some b) ≤ to_launch (some a) → Runs n (f b) s)
      → Runs n (host_status a >>= f) s
  unfolding host_status
  host_status-Runs TaskStatus.cancelling f s rest = record {
    ran = (Runs-raise {n = n} {A = Unit} task_is_cancelling s (λ e. cc)).ran;
  }
  host_status-Runs TaskStatus.cancelling_after_completion f s rest = record {
    ran = (rest TaskStatus.cancelling_after_completion here (omega arith)).ran;
  }
  host_status-Runs TaskStatus.pending f s rest = record {
    ran = (rest TaskStatus.starting (edge Diagram.accept) (omega arith)).ran;
  }
  host_status-Runs _ f s rest = record {
    ran = (Runs-raise {n = n} {A = Unit} invalid_task_state s (λ e. cc)).ran;
  }

  pub set_task_host-Runs : (id host : ℕ) (s : Store) → Runs n (set_task_host id host) s
  unfolding set_task_host
  set_task_host-Runs id host s = Runs-get_task n id _ s λ t now.
      host_status-Runs t.status _ s
        λ b path less. host_then_status id (some host) none s b now path less

  process_path : (a : TaskStatus) → not (accepts_process a) ≡ false → a ⟶* TaskStatus.running
  process_path TaskStatus.starting h = edge Diagram.run
  process_path TaskStatus.cancelling_after_completion h = edge Diagram.run_cleanup
  process_path _ h = cc

  pub set_task_process-Runs : (id process : ℕ) (s : Store) → Runs n (set_task_process id process) s
  unfolding set_task_process
  set_task_process-Runs id process s = Runs-get_task n id _ s λ t now.
      Runs-if (not (has_host t.host)) _ _ s (λ _. Runs-raise invalid_task_state s (λ e. cc))
        (λ _.
          Runs-if (not (accepts_process t.status)) _ _ s
            (λ _. Runs-raise invalid_task_state s (λ e. cc))
            (λ h.
              host_then_status id none (some process) s TaskStatus.running now
                (process_path t.status h) (omega arith)))

-- A write that follows the diagram.
abbrev pub Fits : TaskStatus → TaskStatus → Type 0
Fits a b = (a ⟶* b) × (to_launch (some b) ≤ to_launch (some a))

abbrev FitsSome : TaskStatus → Option TaskStatus → Type 0
FitsSome a none = Unit
FitsSome a (some b) = Fits a b

completion-FitsSome : (a : TaskStatus) → FitsSome a (completion_status a)
unfolding completion_status
completion-FitsSome TaskStatus.cancelling_after_completion =
    (edge (Diagram.complete_late refl), omega arith)
completion-FitsSome TaskStatus.cancelling = (edge (Diagram.complete_late refl), omega arith)
completion-FitsSome TaskStatus.failed_to_cancel = (edge (Diagram.complete_late refl), omega arith)
completion-FitsSome TaskStatus.scheduled = (edge (Diagram.complete refl), omega arith)
completion-FitsSome TaskStatus.pending = (edge (Diagram.complete refl), omega arith)
completion-FitsSome TaskStatus.starting = (edge (Diagram.complete refl), omega arith)
completion-FitsSome TaskStatus.running = (edge (Diagram.complete refl), omega arith)
completion-FitsSome TaskStatus.on_error_only = (edge (Diagram.complete refl), omega arith)
completion-FitsSome _ = tt

confirmation-Fits : (a : TaskStatus) → Fits a (confirmation_status a)
unfolding confirmation_status
confirmation-Fits TaskStatus.cancelling_after_completion = (edge (Diagram.cancel refl), omega arith)
confirmation-Fits TaskStatus.cancelling = (edge (Diagram.cancel refl), omega arith)
confirmation-Fits TaskStatus.failed_to_cancel = (edge (Diagram.cancel refl), omega arith)
confirmation-Fits TaskStatus.scheduled = (edge (Diagram.cancel refl), omega arith)
confirmation-Fits TaskStatus.pending = (edge (Diagram.cancel refl), omega arith)
confirmation-Fits TaskStatus.starting = (edge (Diagram.cancel refl), omega arith)
confirmation-Fits TaskStatus.running = (edge (Diagram.cancel refl), omega arith)
confirmation-Fits TaskStatus.on_error_only = (edge (Diagram.cancel refl), omega arith)
confirmation-Fits _ = (here, omega arith)

pub error-Fits : (a : TaskStatus) → Fits a (error_status a)
unfolding error_status
error-Fits TaskStatus.cancelling_after_completion = (edge (Diagram.cancel refl), omega arith)
error-Fits TaskStatus.cancelling = (edge (Diagram.cancel refl), omega arith)
error-Fits TaskStatus.failed_to_cancel = (edge (Diagram.cancel refl), omega arith)
error-Fits TaskStatus.force_canceled = (here, omega arith)
error-Fits _ = (edge (Diagram.fail refl), omega arith)

pub info_of-Quiet : (o : Option (Dict ℕ)) → Quiet whole (info_of o)
info_of-Quiet none = Quiet-raise key_error (λ e. cc)
info_of-Quiet (some info) = Quiet-pure info

pub Runs-get_tasks_execution :
    {A : Type 0} (n : ℕ) (f : Execution → M A) (s : Store)
    → Runs n (f s.execution) s
    → Runs n (get_tasks_execution >>= f) s
unfolding get_tasks_execution
Runs-get_tasks_execution n f s rest = record { ran = rest.ran }

module _ (w : World) where
  task_info_after-Quiet : (t : Task) (result : Dict ℕ) → Quiet whole (task_info_after w t result)
  unfolding task_info_after
  task_info_after-Quiet t [] = Quiet-bind _ _ Quiet-get λ s. info_of-Quiet _
  task_info_after-Quiet t (entry ∷ result) =
      update_action_info-Quiet t.instance_name (entry ∷ result)

module _ (n : ℕ) (w : World) where
  process_result-Runs :
      (t : Task) (result : Dict ℕ) (s : Store)
      → Distinct (ids_of s)
      → Runs n (process_result w t result) s
  unfolding process_result
  process_result-Runs t result s d =
      let q = task_info_after-Quiet w t result in
      let first : Runs n (task_info_after w t result) s = Quiet-Runs _ s (Quiet-rows _ q) in
      Runs-bind _ _ s first λ info _.
        let s1 : Store = (task_info_after w t result s).1 in
        Runs-get_tasks_execution n _ s1 (
          let q2 = handle_post_task_actions-Quiet w t s1.execution info in
          let second : Runs n (handle_post_task_actions w t s1.execution info) s1 =
            Quiet-Runs _ s1 (Quiet-rows _ q2) in
          let s2 : Store = (handle_post_task_actions w t s1.execution info s1).1 in
          Runs-seq _ _ s1 second λ ev.
            Runs-seq _ _ s2
              (run_advance-Runs n w s1.execution false (some t.instance_name) s2
                (rw (ev.same_ids, first.ran.evolves.same_ids) d) (sym (q2.hushed s1).same_tasks))
              (λ _. Runs-pure tt _))

  complete_with-Runs :
      (id : ℕ) (o : Option TaskStatus) (t : Task) (result : Dict ℕ) (s : Store) {a : TaskStatus}
      → status_of id s ≡ some a
      → FitsSome a o
      → Distinct (ids_of s)
      → Runs n (complete_with w id o t result) s
  unfolding complete_with
  complete_with-Runs id none t result s now fits d = Runs-pure tt s
  complete_with-Runs id (some b) t result s now fits d =
      Runs-seq _ _ s (Runs-set_task_status id b s now fits.0 fits.1)
        (λ ev. process_result-Runs t result _ (rw ev.same_ids d))

  pub task_completed-Runs :
      (id : ℕ) (result : Dict ℕ) (s : Store)
      → Distinct (ids_of s)
      → Runs n (task_completed w id result) s
  unfolding task_completed
  task_completed-Runs id result s d = Runs-get_task n id _ s λ t now.
      complete_with-Runs id (completion_status t.status) t result s now
        (completion-FitsSome t.status) d

  pub confirm_task_cancellation-Runs :
      (id : ℕ) (s : Store) → Distinct (ids_of s) → Runs n (confirm_task_cancellation w id) s
  unfolding confirm_task_cancellation confirm_with
  confirm_task_cancellation-Runs id s d = Runs-get_task n id _ s λ t now.
      let fits = confirmation-Fits t.status in
      Runs-seq _ _ s (Runs-set_task_status id _ s now fits.0 fits.1) λ ev.
        Runs-if (same_task_status (confirmation_status t.status) t.status) _ _ _
          (λ _. Runs-pure tt _)
          (λ _. Runs-get_tasks_execution n _ _ (
            Runs-seq _ _ _ (run_advance-Runs n w _ false none _ (rw ev.same_ids d) refl)
              (λ _. Runs-pure tt _)))
