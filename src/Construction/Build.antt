-- ===== src/Construction/Build.antt =====
-- conductor/rpc/server.py, `_create_task`: the tasks of an execution are made one by one, and the
-- code that makes them keeps their identifiers.
use cloudshift.Prelude.{
  ℕ, suc, Bool, true, false, not, ◌&&◌, ◌||◌, none, List, [], ◌∷◌, ◌++◌, length, any, is_empty,
  ◌==◌, if◌then◌else◌,
}
use cloudshift.Constants.{TaskStatus, TaskType, is_on_error_only}
use cloudshift.Conductor.Store.{Task}

-- Whether a task with the identifier is there that is not ON_ERROR_ONLY.
abbrev pub scheduled_among : List Task → ℕ → Bool
scheduled_among tasks id = any (λ t. (t.id == id) && not (is_on_error_only t.status)) tasks

abbrev pub initial_status :
    List Task → (depends_on : List ℕ) (on_error on_error_only : Bool) → TaskStatus
initial_status tasks depends_on on_error on_error_only =
    if not on_error && not on_error_only
    then TaskStatus.scheduled
    else (if on_error_only
        then TaskStatus.on_error_only
        else (if is_empty depends_on || any (scheduled_among tasks) depends_on
            then TaskStatus.scheduled
            else TaskStatus.on_error_only))

-- A row that `_create_task` makes. Setting `task.execution` puts the new task in the execution's
-- tasks, so that it counts itself in `len(task.execution.tasks) + 1`.
abbrev pub new_task :
    (id : ℕ) → List Task → (instance_name : ℕ) → TaskType → List ℕ → Bool → Bool → Task
new_task id tasks instance_name type depends_on on_error on_error_only = record {
  id = id;
  instance_name = instance_name;
  host = none;
  process_id = none;
  status = initial_status tasks depends_on on_error on_error_only;
  task_type = type;
  depends_on = depends_on;
  index = suc (suc (length tasks));
  on_error = on_error || on_error_only;
}

-- A piece of code that calls `_create_task` for an instance, and what it does with the identifier.
pub data Build (A : Type 0) : Type 0 where
  done : A → Build A
  create :
      TaskType → (depends_on : List ℕ) → (on_error on_error_only : Bool) → (ℕ → Build A) → Build A

module _ {A B : Type 0} where
  infixl 5 ◌>>=◌ ◌>>◌
  abbrev pub ◌>>=◌ : Build A → (A → Build B) → Build B
  done a >>= f = f a
  create type deps on_error on_error_only k >>= f =
      create type deps on_error on_error_only (λ id. k id >>= f)

  abbrev pub ◌>>◌ : Build A → Build B → Build B
  m >> n = m >>= (λ _. n)

abbrev pub create_task : TaskType → (depends_on : List ℕ) → Build ℕ
create_task type depends_on = create type depends_on false false done

-- `on_error=...`
abbrev pub create_cleanup_task : (on_error : Bool) → TaskType → (depends_on : List ℕ) → Build ℕ
create_cleanup_task on_error type depends_on = create type depends_on on_error false done

-- `on_error_only=True`
abbrev pub create_on_error_only_task : TaskType → (depends_on : List ℕ) → Build ℕ
create_on_error_only_task type depends_on = create type depends_on false true done

-- `uuid n` is the identifier that `uuid.uuid4()` gives to the task that is made after n others.
module _ (uuid : ℕ → ℕ) where
  unfoldable pub run : {A : Type 0} → (instance_name : ℕ) → Build A → List Task → A × List Task
  run instance_name (done a) tasks = (a, tasks)
  run instance_name (create type deps on_error on_error_only k) tasks =
      let id = uuid (length tasks) in
      run instance_name (k id)
        (tasks ++ new_task id tasks instance_name type deps on_error on_error_only ∷ [])

  -- The loop over the instances of the action.
  unfoldable pub run_all : (ℕ → Build Unit) → (instances : List ℕ) → List Task → List Task
  unfolding run
  run_all build [] tasks = tasks
  run_all build (i ∷ is) tasks = run_all build is (run i (build i) tasks).1
