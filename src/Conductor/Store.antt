-- ===== src/Conductor/Store.antt =====
-- coriolis/db/sqlalchemy/models.py and coriolis/db/api.py: the rows of one tasks execution, and
-- the calls that the conductor has made to other services. Identifiers are numbers.
use cloudshift.Prelude.{ℕ, Bool, Option, none, some, List, [], ◌∷◌, Dict, ◌==◌, if◌then◌else◌}
use cloudshift.Constants.{TaskStatus, TaskType, ExecutionStatus, ExecutionType, Scenario}

-- `depends_on` is nullable, and the code tests it by its truth: null is the empty list.
pub record Task : Type 0 where
  pub id : ℕ
  pub instance_name : ℕ
  pub host : Option ℕ
  pub process_id : Option ℕ
  pub status : TaskStatus
  pub task_type : TaskType
  pub depends_on : List ℕ
  pub index : ℕ
  pub on_error : Bool

-- A tasks execution, with what the conductor reads of its action: the scenario of the transfer
-- that it belongs to, and the reservation there.
pub record Execution : Type 0 where
  pub status : ExecutionStatus
  pub type : ExecutionType
  pub tasks : List Task
  pub scenario : Scenario
  pub reservation_id : Option ℕ

-- Requests to other services, and writes to rows outside the execution.
pub data Call : Type 0 where
  create_trust delete_trust deallocate_minions get_reservation : Call
  mark_reservation_fulfilled : ℕ → Call
  get_worker_service begin_task deallocate_minion_machine : ℕ → Call
  cancel_task : ℕ → Bool → Call
  update_parent_volumes_info set_transfer_result update_minion_machine : ℕ → ℕ → Call
  update_transfer : Dict ℕ → Call

-- The rows of the execution, the last status and the task info of each instance in the action's row,
-- the request context's trust, and the calls made so far, the newest first.
pub record Store : Type 0 where
  pub execution : Execution
  pub last_execution_status : ExecutionStatus
  pub info : Dict (Dict ℕ)
  pub trust_id : Bool
  pub delete_trust_id : Bool
  pub log : List Call

-- What other services answer, by the number of calls made before; the configuration; whether a
-- value fits the schema of a transfer's result; and the instances of the action.
pub record World : Type 0 where
  pub succeeds : ℕ → Call → Bool
  pub licensing : Bool
  pub debug_os_morphing_errors : Bool
  pub fits_export_schema : ℕ → Bool
  pub reservation : ℕ → Option Bool
  pub instances : List ℕ

unfoldable pub find_task : ℕ → List Task → Option Task
find_task id [] = none
find_task id (t ∷ ts) = if t.id == id then some t else find_task id ts

-- The row with the identifier is replaced; the key is the first match, as in a primary key.
unfoldable pub put_task : ℕ → (Task → Task) → List Task → List Task
put_task id f [] = []
put_task id f (t ∷ ts) = if t.id == id then f t ∷ ts else t ∷ put_task id f ts

unfoldable pub status_in : ℕ → List Task → Option TaskStatus
status_in id [] = none
status_in id (t ∷ ts) = if t.id == id then some t.status else status_in id ts

abbrev pub status_of : ℕ → Store → Option TaskStatus
status_of id s = status_in id s.execution.tasks

abbrev pub tasks_of : Store → List Task
tasks_of s = s.execution.tasks
