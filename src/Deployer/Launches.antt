-- ===== src/Deployer/Launches.antt =====
-- When the deployer manager has a deployment launched, and what becomes of it otherwise.
use cloudshift.Prelude.{
  ℕ, ◌≡◌, refl, sym, ap, ◌∙◌, Bool, true, false, not, ◌||◌, Option, none, some, List, [], ◌∷◌, any,
  all, filter, is_empty, All, ◌==◌, arith, Bool-cases, inl, inr, ◌⊎◌,
}
use cloudshift.Prelude.Results.{done, raised, done_bind, ensure_bind, ensure_done}
use cloudshift.Constants.{ExecutionStatus, is_active_execution}
use cloudshift.Deployer.Deployments.{
  TasksExecution, Transfer, Deployment, Conductor, Reply, find_transfer, find_deployment,
  get_execution_for_deployment, is_active_one, check_running_transfer_deployments, was_transferred,
  check_valid_transfer_tasks_execution, unless_validated, validate_deployment_inputs, check_launch,
  set_action_last_execution_status, with_deployments,
}
use cloudshift.Deployer.Manager.{
  Verdict, verdict, Launch, with_execution, deployer_of, deployer_status, put_in_error,
  report_deployer_failure, launch_deployment, conclude_launch, confirm_deployer_completed,
  on_verdict, attempt_check, on_exception, check_deployer_status,
}

-- The transfer can be deployed: no execution of it is_active_one, nor one of its deployments, it has been
-- carried out, and there is information of the volumes of every instance.
pub record Deployable (deployments : List Deployment) (t : Transfer) : Type 0 where
  pub idle : any (λ e. is_active_execution e.status) t.executions ≡ false
  pub not_deploying :
      All
        (λ d. any (λ e. is_active_execution e.status) d.executions ≡ false)
        (filter (λ d. d.transfer_id == t.id) deployments)
  pub transferred : was_transferred t.executions ≡ true
  pub volumes : all (λ b. b) t.have_volumes_info ≡ true

is_active_answer : Reply (Option TasksExecution) → Bool
is_active_answer (done o) = is_active_one o
is_active_answer (raised e) = false

get_execution_lem :
    (executions : List TasksExecution) (o : Option TasksExecution)
    → get_execution_for_deployment executions ≡ done o
    → is_active_one o ≡ any (λ e. is_active_execution e.status) executions
unfolding is_active_answer
get_execution_lem [] o h = sym (ap is_active_answer h)
get_execution_lem (e ∷ []) o h = ground (arith, ap is_active_answer h)
get_execution_lem (e ∷ f ∷ executions) o h = ground (arith, h)

check_running_lem :
    (id : ℕ) (deployments : List Deployment)
    → check_running_transfer_deployments id deployments ≡ done tt
    → All
        (λ d. any (λ e. is_active_execution e.status) d.executions ≡ false)
        (filter (λ d. d.transfer_id == id) deployments)
unfolding check_running_transfer_deployments
check_running_lem id [] h = tt
check_running_lem id (d ∷ deployments) h = elim (Bool-cases (d.transfer_id == id)) [
  | inr e ↦ rw e (check_running_lem id deployments (rw e at h))
  | inl e ↦
      let (o, found, h1) = done_bind (get_execution_for_deployment d.executions) _ tt (rw e at h) in
      let (idle, h2) = ensure_bind (not (is_active_one o)) _ _ tt h1 in
      rw e (
        ground (arith, idle, get_execution_lem d.executions o found),
        check_running_lem id deployments h2,
      )
]

validate_lem :
    (agree : Bool) (deployments : List Deployment) (t : Transfer)
    → validate_deployment_inputs agree deployments t false ≡ done tt
    → Deployable deployments t
unfolding validate_deployment_inputs
validate_lem agree deployments t h =
    let (idle, h1) =
      ensure_bind (not (any (λ e. is_active_execution e.status) t.executions)) _ _ tt h in
    let (u, others, h2) = done_bind (check_running_transfer_deployments t.id deployments) _ tt h1 in
    let (v, valid, h3) =
      done_bind (check_valid_transfer_tasks_execution t.executions false) _ tt h2 in
    let (executed, h4) = ensure_bind (not (is_empty t.executions) || false) _ _ tt valid in
    let transferred = ensure_done (was_transferred t.executions || false) _ h4 in
    let (volumes, h5) = ensure_bind (all (λ b. b) t.have_volumes_info) _ _ tt h3 in
    record {
      idle = ground (arith, idle);
      not_deploying = check_running_lem t.id deployments others;
      transferred = ground (arith, transferred);
      volumes = volumes;
    }

-- The deployment has a new execution; its deployer had completed and its transfer could be
-- deployed. The deployment may be in error all the same, where a call after the execution was added
-- has failed, or the polls have not seen it start.
pub record IsLaunched (id : ℕ) (c after : Conductor) : Type 0 where
  pub deployment : Deployment
  pub transfer : Transfer
  pub execution : TasksExecution
  pub found : find_deployment id c.deployments ≡ done deployment
  pub of : find_transfer deployment.transfer_id c.transfers ≡ done transfer
  pub deployer_completed : deployer_status id c ≡ done ExecutionStatus.completed
  pub deployable : Deployable c.deployments transfer
  pub begun :
      (after ≡ with_execution execution id c)
      ⊎ (after ≡ put_in_error id (with_execution execution id c))

set_status_twice :
    (status : ExecutionStatus) (id : ℕ) (deployments : List Deployment)
    → set_action_last_execution_status status id
        (set_action_last_execution_status status id deployments)
      ≡ set_action_last_execution_status status id deployments
set_status_twice status id [] = refl
set_status_twice status id (d ∷ deployments) = elim (Bool-cases (d.id == id)) [
  | inl e ↦ rw e (rw (e, set_status_twice status id deployments) refl)
  | inr e ↦ rw e (rw (e, set_status_twice status id deployments) refl)
]

verdict-completed :
    (s : ExecutionStatus) → verdict s ≡ Verdict.completed → s ≡ ExecutionStatus.completed
verdict-completed s h = ground (arith, h)

deployer_of_lem : (o : Option ℕ) (x : ℕ) → deployer_of o ≡ done x → (y : ℕ) × (o ≡ some y)
deployer_of_lem none x h = ground (arith, h)
deployer_of_lem (some y) x h = (y, refl)

deployer_lem :
    (id : ℕ) (c : Conductor) (s : ExecutionStatus) (d : Deployment)
    → deployer_status id c ≡ done s
    → find_deployment id c.deployments ≡ done d
    → (deployer_id : ℕ) × (d.deployer_id ≡ some deployer_id)
unfolding deployer_status
deployer_lem id c s d h found =
    let (x, has, h1) = done_bind (deployer_of d.deployer_id) _ s (rw found at h) in
    deployer_of_lem d.deployer_id x has

validated_lem :
    (o : Option ℕ) (x : ℕ) (validation : Reply Unit)
    → o ≡ some x
    → unless_validated o validation ≡ done tt
    → validation ≡ done tt
validated_lem none x validation e h = ground (arith, e)
validated_lem (some y) x validation e h = h

-- What a check leaves.
CheckOutcome : (id : ℕ) (c after : Conductor) → Type 0
CheckOutcome id c after = (after ≡ c) ⊎ ((after ≡ put_in_error id c) ⊎ IsLaunched id c after)

pub fail_twice : (id : ℕ) (c : Conductor) → put_in_error id (put_in_error id c) ≡ put_in_error id c
fail_twice id c = ap (with_deployments c) (set_status_twice ExecutionStatus.error id c.deployments)

CheckOutcome-fail :
    (id : ℕ) (c after : Conductor)
    → CheckOutcome id c after
    → CheckOutcome id c (put_in_error id after)
unfolding CheckOutcome
CheckOutcome-fail id c after (inl same) = inr (inl (ap (put_in_error id) same))
CheckOutcome-fail id c after (inr (inl failed)) =
    inr (inl (ap (put_in_error id) failed ∙ fail_twice id c))
CheckOutcome-fail id c after (inr (inr launched)) = inr (
    inr (record {
      deployment = launched.deployment;
      transfer = launched.transfer;
      execution = launched.execution;
      found = launched.found;
      of = launched.of;
      deployer_completed = launched.deployer_completed;
      deployable = launched.deployable;
      begun = later launched.begun;
    }))
  where
    later :
        (after ≡ with_execution launched.execution id c)
          ⊎ (after ≡ put_in_error id (with_execution launched.execution id c))
        → (put_in_error id after ≡ with_execution launched.execution id c)
          ⊎ (put_in_error id after ≡ put_in_error id (with_execution launched.execution id c))
    later (inl b) = inr (ap (put_in_error id) b)
    later (inr b) =
        inr (ap (put_in_error id) b ∙ fail_twice id (with_execution launched.execution id c))

module _ (agree : Bool) (launch : Deployment → Launch) (observed : ℕ → Reply ExecutionStatus) where
  launch_lem :
      (id : ℕ) (c : Conductor) (e : Launch)
      → deployer_status id c ≡ done ExecutionStatus.completed
      → launch_deployment agree launch observed id false c ≡ done e
      → (d : Deployment) × (t : Transfer) × (find_deployment id c.deployments ≡ done d)
        × (find_transfer d.transfer_id c.transfers ≡ done t)
        × Deployable c.deployments t
  launch_lem id c e completed h =
      let (d, found, h1) = done_bind (find_deployment id c.deployments) _ e h in
      let (u, checked, h2) = done_bind (check_launch agree c d false) _ e h1 in
      let (t, of, h3) = done_bind (find_transfer d.transfer_id c.transfers) _ u checked in
      let (x, has) = deployer_lem id c ExecutionStatus.completed d completed found in
      (d, t, found, of, validate_lem agree c.deployments t (validated_lem d.deployer_id x _ has h3))

  launched_lem :
      (id : ℕ) (c : Conductor) (execution : TasksExecution) (l : Launch) (after : Conductor)
      → deployer_status id c ≡ done ExecutionStatus.completed
      → launch_deployment agree launch observed id false c ≡ done l
      → (after ≡ with_execution execution id c)
        ⊎ (after ≡ put_in_error id (with_execution execution id c))
      → IsLaunched id c after
  launched_lem id c execution l after completed h begun =
      let (d, t, found, of, deployable) = launch_lem id c l completed h in
      record {
        deployment = d;
        transfer = t;
        execution = execution;
        found = found;
        of = of;
        deployer_completed = completed;
        deployable = deployable;
        begun = begun;
      }

  conclude_lem :
      (id : ℕ) (c : Conductor) (o : Reply Launch)
      → deployer_status id c ≡ done ExecutionStatus.completed
      → launch_deployment agree launch observed id false c ≡ o
      → CheckOutcome id c (conclude_launch agree launch observed id o c).1
  unfolding CheckOutcome
  conclude_lem id c (raised e) completed h = inr (inl refl)
  conclude_lem id c (done Launch.not_made) completed h = inr (inl refl)
  conclude_lem id c (done (Launch.broken execution)) completed h =
      inr (inr (launched_lem id c execution _ _ completed h (inr refl)))
  conclude_lem id c (done (Launch.launched execution)) completed h =
      inr (inr (launched_lem id c execution _ _ completed h (inl refl)))

  on_verdict_lem :
      (id : ℕ) (c : Conductor) (s : ExecutionStatus) (v : Verdict)
      → verdict s ≡ v
      → deployer_status id c ≡ done s
      → CheckOutcome id c (on_verdict agree launch observed v id c).1
  unfolding on_verdict confirm_deployer_completed CheckOutcome
  on_verdict_lem id c s Verdict.active e h = inl refl
  on_verdict_lem id c s Verdict.failed e h = inl refl
  on_verdict_lem id c s Verdict.completed e h =
      conclude_lem id c _ (h ∙ ap done (verdict-completed s e)) refl

  attempt_lem :
      (id : ℕ) (c : Conductor) (o : Reply ExecutionStatus)
      → deployer_status id c ≡ o
      → CheckOutcome id c (attempt_check agree launch observed id o c).1
  unfolding attempt_check CheckOutcome
  attempt_lem id c (raised e) h = inl refl
  attempt_lem id c (done s) h = on_verdict_lem id c s (verdict s) refl h

  handle_lem :
      (id : ℕ) (c : Conductor) (r : Reply Unit × Conductor)
      → CheckOutcome id c r.1
      → CheckOutcome id c (on_exception agree launch observed id r).1
  unfolding on_exception report_deployer_failure
  handle_lem id c (done u, after) o = o
  handle_lem id c (raised e, after) o = CheckOutcome-fail id c after o

  -- A check of a pending deployment leaves everything as it is, puts the deployment in error, or
  -- gives it an execution, whether or not the rest of the launch fails. It gets one only when the execution that it waits for has completed, no
  -- execution of its transfer nor of a deployment of it is active, the transfer has been carried
  -- out before, and every instance has information of its volumes.
  pub check_deployer_status-IsLaunched :
      (id : ℕ) (c : Conductor)
      → ((check_deployer_status agree launch observed id c).1 ≡ c)
        ⊎ (((check_deployer_status agree launch observed id c).1 ≡ put_in_error id c)
            ⊎ IsLaunched id c (check_deployer_status agree launch observed id c).1)
  unfolding check_deployer_status CheckOutcome
  check_deployer_status-IsLaunched id c = handle_lem id c _ (attempt_lem id c _ refl)
