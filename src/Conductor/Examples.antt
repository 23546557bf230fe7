-- ===== src/Conductor/Examples.antt =====
-- A small execution, and the theorems about the conductor at it.
use cloudshift.Prelude.{
  ℕ, ◌≤◌, ◌≡◌, refl, ◌≢◌, Bool, true, false, none, some, List, [], ◌∷◌, insert, ◌⊎◌,
}
use cloudshift.Constants.{TaskStatus, TaskType, ExecutionStatus, ExecutionType, Scenario}
use cloudshift.Conductor.Store.{Task, Store, World, find_task, put_task, status_in, status_of}
use cloudshift.Conductor.Effects.{
  err, out_of_fuel, get_tasks_execution, invoke, set_execution_status,
}
use cloudshift.Conductor.Diagram.{Moves}
use cloudshift.Conductor.Evolves.{Distinct, ids_of, begun}
use cloudshift.Conductor.Requests.{
  Request, begin, cancel, host_set, process_set, completed, failed, handle_request, serve,
}
use cloudshift.Conductor.Life.{
  begun-serve-le-one, handle_request-ne-out_of_fuel, serve-Moves, serve-settled,
}

abbrev pub task : ℕ → TaskStatus → TaskType → List ℕ → Bool → Task
task id status type deps on_error = record {
  id = id;
  instance_name = 1;
  host = none;
  process_id = none;
  status = status;
  task_type = type;
  depends_on = deps;
  index = id;
  on_error = on_error;
}

-- A task, one that depends on it, and a cleanup task.
abbrev pub tasks : List Task
tasks =
    task 1 TaskStatus.scheduled TaskType.deploy_transfer_disks [] false
    ∷ task 2 TaskStatus.scheduled TaskType.replicate_disks (1 ∷ []) false
    ∷ task 3 TaskStatus.scheduled TaskType.delete_transfer_target_resources (1 ∷ 2 ∷ []) true
    ∷ []

abbrev pub store : ExecutionStatus → List Task → Store
store status tasks = record {
  execution = record {
    status = status;
    type = ExecutionType.transfer_execution;
    tasks = tasks;
    scenario = Scenario.replica;
    reservation_id = none;
  };
  last_execution_status = status;
  info = (1, []) ∷ [];
  trust_id = false;
  delete_trust_id = false;
  log = [];
}

abbrev pub fresh_store : Store
fresh_store = store ExecutionStatus.unexecuted tasks

-- Every request to another service succeeds.
abbrev pub world : World
world = record {
  succeeds = λ n c. true;
  licensing = false;
  debug_os_morphing_errors = false;
  fits_export_schema = λ v. true;
  reservation = λ n. none;
  instances = 1 ∷ [];
}

abbrev history : List Request
history =
    begin true
    ∷ host_set 1 7
    ∷ process_set 1 9
    ∷ completed 1 []
    ∷ host_set 2 7
    ∷ process_set 2 9
    ∷ failed 2
    ∷ []

-- Task 2 fails, so the cleanup task is begun, and the execution is on its way to its end.
run : Unit {0}
unfolding serve handle_request status_in begun find_task get_tasks_execution invoke
    set_execution_status put_task insert
run = tt

statuses_after :
    (status_of 1 (serve world history fresh_store) ≡ some TaskStatus.completed)
    × (status_of 2 (serve world history fresh_store) ≡ some TaskStatus.error)
    × (status_of 3 (serve world history fresh_store) ≡ some TaskStatus.pending)
    × ((serve world history fresh_store).execution.status ≡ ExecutionStatus.running)
unfolding run
statuses_after = (refl, refl, refl, refl)

abbrev pub distinct : Distinct (ids_of fresh_store)
distinct = ((refl, (refl, tt)), ((refl, tt), (tt, tt)))

begun-serve-le-one_example : begun 2 (serve world history fresh_store).log ≤ 1
begun-serve-le-one_example = begun-serve-le-one world history fresh_store 2 distinct refl

handle_request-ne-out_of_fuel_example :
    (handle_request world (begin true) fresh_store).0 ≢ err out_of_fuel
handle_request-ne-out_of_fuel_example =
    handle_request-ne-out_of_fuel world (begin true) fresh_store distinct

serve-Moves_example :
    Moves (status_of 3 fresh_store) (status_of 3 (serve world history fresh_store))
serve-Moves_example = serve-Moves world history fresh_store 3 distinct

-- The execution after its first task was completed.
abbrev pub half_done : Store
half_done = store ExecutionStatus.running (
    task 1 TaskStatus.completed TaskType.deploy_transfer_disks [] false
    ∷ task 2 TaskStatus.running TaskType.replicate_disks (1 ∷ []) false
    ∷ [])

serve-settled_example :
    (status_of 1 (serve world (failed 1 ∷ cancel true ∷ []) half_done) ≡ some TaskStatus.completed)
    ⊎ (status_of 1 (serve world (failed 1 ∷ cancel true ∷ []) half_done) ≡ some TaskStatus.error)
serve-settled_example =
    serve-settled world (failed 1 ∷ cancel true ∷ []) half_done 1 {a = TaskStatus.completed}
      ((refl, tt), (tt, tt)) (unfold status_in in refl) refl
