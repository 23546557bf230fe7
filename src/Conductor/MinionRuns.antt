-- ===== src/Conductor/MinionRuns.antt =====
-- What the minion manager reports moves the tasks along the diagram.
use cloudshift.Prelude.{
  ℕ, suc, ◌≡◌, true, false, not, some, List, [], ◌∷◌, contains, is_empty, Dict, lookup,
}
use cloudshift.Constants.{ExecutionStatus}
use cloudshift.Conductor.Store.{Store, World}
use cloudshift.Conductor.Effects.{M, out_of_fuel, ◌>>=◌, for_each, get_tasks_execution}
use cloudshift.Conductor.Status.{is_awaiting, set_tasks_execution_status}
use cloudshift.Conductor.Engine.{run_cancel}
use cloudshift.Conductor.Results.{merge}
use cloudshift.Conductor.Launch.{begin_tasks}
use cloudshift.Conductor.Minions.{
  Allocation, ActionKind, transfer_action, deployment_action, invalid_state, minion_info,
  check_instance_info, save_allocation, update_task_info_for_minion_allocations,
  confirm_minions_allocation, report_minions_allocation_error,
}
use cloudshift.Conductor.Evolves.{Distinct, ids_of}
use cloudshift.Conductor.Runs.{Runs, Runs-raise, Runs-seq, Runs-if}
use cloudshift.Conductor.Quiet.{
  Quiet, whole, Quiet-Runs, Quiet-pure, Quiet-bind, Quiet-seq, Quiet-if, Quiet-rows,
  set_tasks_execution_status-Quiet,
}
use cloudshift.Conductor.ResultRuns.{update_action_info-Quiet}
use cloudshift.Conductor.ReportRuns.{run_cancel-Runs}
use cloudshift.Conductor.HandlerRuns.{Runs-get_tasks_execution, info_of-Quiet}
use cloudshift.Conductor.LaunchRuns.{begin_tasks-Runs}

Quiet-for_each :
    {A : Type 0} (f : A → M Unit) (xs : List A)
    → ((x : A) → Quiet whole (f x))
    → Quiet whole (for_each f xs)
unfolding for_each
Quiet-for_each f [] quiet = Quiet-pure tt
Quiet-for_each f (x ∷ xs) quiet = Quiet-seq _ _ (quiet x) (Quiet-for_each f xs quiet)

module _ (instances : List ℕ) (allocations : Dict Allocation) (info : Dict (Dict ℕ)) where
  check_instance_info-Quiet :
      (name : ℕ) → Quiet whole (check_instance_info instances allocations info name)
  unfolding check_instance_info
  check_instance_info-Quiet name =
      Quiet-if (is_empty (minion_info (lookup name allocations))) _ _ (Quiet-pure tt)
        (Quiet-bind _ _ (info_of-Quiet (lookup name info)) (λ _. Quiet-pure tt))

  save_allocation-Quiet :
      (entry : ℕ × Allocation) → Quiet whole (save_allocation instances allocations info entry)
  unfolding save_allocation
  save_allocation-Quiet (name, allocation) =
      Quiet-if (contains name instances) _ _
        (Quiet-bind _ _ (info_of-Quiet (lookup name info)) (λ old.
          Quiet-seq _ _ (update_action_info-Quiet name (merge old (minion_info (some allocation))))
            (Quiet-pure tt)))
        (Quiet-pure tt)

  update_task_info-Quiet :
      Quiet whole (update_task_info_for_minion_allocations instances allocations info)
  unfolding update_task_info_for_minion_allocations
  update_task_info-Quiet =
      Quiet-seq _ _ (Quiet-for_each _ instances check_instance_info-Quiet)
        (Quiet-for_each _ allocations save_allocation-Quiet)

refusal-fine : (kind : ActionKind) → invalid_state kind ≡ out_of_fuel → ⊥
refusal-fine transfer_action e = cc
refusal-fine deployment_action e = cc

module _ (n : ℕ) (w : World) (kind : ActionKind) where
  pub confirm_minions_allocation-Runs :
      (allocations : Dict Allocation) (s : Store)
      → Distinct (ids_of s)
      → Runs (suc n) (confirm_minions_allocation w kind allocations) s
  unfolding confirm_minions_allocation
  confirm_minions_allocation-Runs allocations s d =
      let update = update_task_info_for_minion_allocations w.instances allocations s.info in
      let start : M Unit = (do execution ← get_tasks_execution; begin_tasks w execution true) in
      let quiet = Quiet-rows update (update_task_info-Quiet w.instances allocations s.info) in
      record {
        ran =
            (Runs-if (not (is_awaiting s.last_execution_status)) _ _ s
              (λ _. Runs-raise (invalid_state kind) s (refusal-fine kind))
              (λ _. Runs-seq update start s (Quiet-Runs update s quiet) (λ ev.
                Runs-get_tasks_execution (suc n) (λ execution. begin_tasks w execution true)
                  (update s).1 (begin_tasks-Runs n w true (update s).1 (rw ev.same_ids d))))).ran;
      }

  pub report_minions_allocation_error-Runs :
      (s : Store) → Distinct (ids_of s) → Runs n (report_minions_allocation_error w kind) s
  unfolding report_minions_allocation_error
  report_minions_allocation_error-Runs s d =
      let cancel = run_cancel w s.execution true false in
      let write =
        set_tasks_execution_status w s.execution ExecutionStatus.error_allocating_minions in
      record {
        ran =
            (Runs-if (not (is_awaiting s.last_execution_status)) _ _ s
              (λ _. Runs-raise (invalid_state kind) s (refusal-fine kind))
              (λ _. Runs-seq cancel write s (run_cancel-Runs n w s.execution false s d) (λ _.
                Quiet-Runs _ _ (
                  set_tasks_execution_status-Quiet w s.execution
                    ExecutionStatus.error_allocating_minions)))).ran;
      }
