-- ===== src/Construction/Sanity.antt =====
-- conductor/rpc/server.py, `_check_execution_tasks_sanity`: a new execution is run on the names of
-- the task info only, round by round.
use cloudshift.Prelude.{
  ℕ, zero, suc, Bool, true, false, not, ◌&&◌, ◌||◌, ◌++◌, none, some, Option, List, [], ◌∷◌, map,
  length, any, all, filter, is_empty, contains, Dict, lookup, ◌==◌, if◌then◌else◌,
}
use cloudshift.Constants.{is_scheduled, is_on_error_only}
use cloudshift.Conductor.Store.{Task}
use cloudshift.Construction.Fields.{required_fields, returned_fields}

-- TaskDependencyException, InvalidTaskState, ExecutionDeadlockException, TaskParametersException
-- and TaskFieldsConflict; the last one is the model's own.
pub data SanityError : Type 0 where
  missing_dependency invalid_initial_state deadlock missing_parameters fields_conflict : SanityError
  no_fuel : SanityError

pub data Check (A : Type 0) : Type 0 where
  passed : A → Check A
  failed : SanityError → Check A

module _ {A B : Type 0} where
  abbrev pub and_then : Check A → (A → Check B) → Check B
  and_then (passed a) f = f a
  and_then (failed e) f = failed e

  infixl 5 ◌>>=◌
  abbrev pub ◌>>=◌ : Check A → (A → Check B) → Check B
  m >>= f = and_then m f

-- Whether a task is queued in this round, given the tasks processed and those to process.
abbrev pub can_queue : (processed to_process : List ℕ) → Task → Check Bool
can_queue processed to_process t =
    if is_scheduled t.status || is_on_error_only t.status
    then (if is_empty t.depends_on
        then passed true
        else (if any (λ d. not (contains d to_process) && not (contains d processed)) t.depends_on
            then failed SanityError.missing_dependency
            else passed (all (λ d. contains d processed) t.depends_on)))
    else failed SanityError.invalid_initial_state

-- The tasks that are queued, and those that are left to process when the queued ones are popped.
unfoldable pub gather : (processed to_process : List ℕ) → List Task → Check (List Task × List Task)
gather processed to_process [] = passed ([], [])
gather processed to_process (t ∷ ts) = do
  queued ← can_queue processed to_process t
  rest ← gather processed to_process ts
  passed (if queued then (t ∷ rest.0, rest.1) else (rest.0, t ∷ rest.1))

-- `_check_task_cls_param_requirements`
abbrev pub check_task : (task_info_keys : List ℕ) → Task → Check (List ℕ)
check_task keys t =
    if all (λ p. contains p keys) (required_fields t.task_type)
    then passed (returned_fields t.task_type)
    else failed SanityError.missing_parameters

-- The names that the queued tasks return.
unfoldable pub collect_fields : (task_info_keys : List ℕ) → List Task → Check (List ℕ)
collect_fields keys [] = passed []
collect_fields keys (t ∷ ts) = do
  fields ← check_task keys t
  rest ← collect_fields keys ts
  passed (fields ++ rest)

-- Whether some name is registered by more than one task.
abbrev pub has_conflict : List ℕ → Bool
has_conflict [] = false
has_conflict (x ∷ xs) = contains x xs || has_conflict xs

abbrev pub task_ids : List Task → List ℕ
task_ids tasks = map (λ t. t.id) tasks

abbrev pub without_conflict :
    List Task × List Task → List ℕ → Check (List ℕ × List Task × List Task)
without_conflict queued fields =
    if has_conflict fields
    then failed SanityError.fields_conflict
    else passed (fields, queued.0, queued.1)

abbrev pub check_queued :
    (task_info_keys : List ℕ) → List Task × List Task → Check (List ℕ × List Task × List Task)
check_queued keys queued = do
  fields ← (if is_empty queued.0 then failed SanityError.deadlock else collect_fields keys queued.0)
  without_conflict queued fields

-- One round: the names returned by the queued tasks, the queued tasks, and those left.
unfoldable pub check_round :
    (task_info_keys processed : List ℕ) → List Task → Check (List ℕ × List Task × List Task)
unfolding gather collect_fields
check_round keys processed tasks = do
  queued ← gather processed (task_ids tasks) tasks
  check_queued keys queued

unfoldable pub check_rounds :
    (fuel : ℕ) → (task_info_keys processed : List ℕ) → List Task → Check Unit
unfolding check_round
check_rounds fuel keys processed [] = passed tt
check_rounds zero keys processed (t ∷ ts) = failed SanityError.no_fuel
check_rounds (suc fuel) keys processed (t ∷ ts) = do
  round ← check_round keys processed (t ∷ ts)
  check_rounds fuel (keys ++ round.0) (task_ids round.1 ++ processed) round.2

-- Each round processes a task, so the number of tasks is fuel enough.
unfoldable pub check_instance : (task_info_keys : List ℕ) → List Task → Check Unit
unfolding check_rounds
check_instance keys tasks = check_rounds (length tasks) keys [] tasks

abbrev pub tasks_for : ℕ → List Task → List Task
tasks_for i tasks = filter (λ t. t.instance_name == i) tasks

abbrev pub dict_keys : Dict ℕ → List ℕ
dict_keys values = map (λ entry. entry.0) values

-- `initial_task_info.get(instance, {}).keys()`
abbrev pub keys_of : Option (Dict ℕ) → List ℕ
keys_of none = []
keys_of (some values) = dict_keys values

-- The loop over the instances of the tasks. The order of a set is not specified: it is a parameter.
unfoldable pub check_instances : (instances : List ℕ) → List Task → Dict (Dict ℕ) → Check Unit
unfolding check_instance lookup
check_instances [] tasks info = passed tt
check_instances (i ∷ is) tasks info = do
  checked ← check_instance (keys_of (lookup i info)) (tasks_for i tasks)
  check_instances is tasks info
