-- ===== src/Conductor/Effects.antt =====
-- Statements that write rows, call other services and may raise. Every write is a transaction of
-- its own, so an exception keeps the writes made before it.
use cloudshift.Prelude.{ℕ, zero, suc, Option, none, some, List, [], ◌∷◌, length, if◌then◌else◌}
use cloudshift.Constants.{TaskStatus, ExecutionStatus}
use cloudshift.Conductor.Store.{Task, Execution, Store, World, Call, find_task, put_task}

-- `call_failed` is whatever a failed call raises; `out_of_fuel` is the model's own.
pub data Error : Type 0 where
  not_found key_error call_failed task_is_cancelling invalid_task_state : Error
  invalid_action_tasks_execution_state invalid_transfer_state conflict coriolis_error : Error
  invalid_deployment_state : Error
  out_of_fuel : Error

pub data Result (A : Type 0) : Type 0 where
  ok : A → Result A
  err : Error → Result A

abbrev pub M : Type 0 → Type 0
M A = Store → Result A × Store

abbrev pub get : M Store
get s = (ok s, s)

module _ {A : Type 0} where
  abbrev pub pure : A → M A
  pure a s = (ok a, s)

  abbrev pub raise : Error → M A
  raise e s = (err e, s)

  abbrev pub handle : Result A → (Error → M A) → M A
  handle (ok a) h s = (ok a, s)
  handle (err e) h s = h e s

  -- `try: m` / `except Exception: h`, where the handler is given what was raised.
  abbrev pub try_except : M A → (Error → M A) → M A
  try_except m h s = let (r, s') = m s in handle r h s'

module _ {A B : Type 0} where
  abbrev pub and_then : Result A → (A → M B) → M B
  and_then (ok a) f = f a
  and_then (err e) f = raise e

  infixl 5 ◌>>=◌ ◌>>◌
  abbrev pub ◌>>=◌ : M A → (A → M B) → M B
  ◌>>=◌ m f s = let (r, s') = m s in and_then r f s'

  abbrev pub ◌>>◌ : M A → M B → M B
  ◌>>◌ m n s = let (r, s') = m s in and_then r (λ _. n) s'

module _ {A : Type 0} where
  unfoldable pub for_each : (A → M Unit) → List A → M Unit
  for_each f [] = pure tt
  for_each f (x ∷ xs) = do f x; for_each f xs

module _ {A B : Type 0} where
  -- A loop that carries the values of local variables.
  unfoldable pub for_fold : (B → A → M B) → B → List A → M B
  for_fold f b [] = pure b
  for_fold f b (x ∷ xs) = do b' ← f b x; for_fold f b' xs

abbrev pub set_execution : (Execution → Execution) → M Unit
set_execution f s = (ok tt, record s { execution = f s.execution })

-- `_get_task(...)` and `get_task(...)`: what is found, or what the caller then raises.
abbrev pub or_raise : {A : Type 0} → Option A → M A
or_raise none = raise not_found
or_raise (some a) = pure a

unfoldable pub get_task : ℕ → M Task
get_task id s = or_raise (find_task id s.execution.tasks) s

unfoldable pub update_task : ℕ → (Task → Task) → M Unit
unfolding get_task
update_task id f = do get_task id; set_execution (λ e. record e { tasks = put_task id f e.tasks })

-- The call also writes the column `exception_details`, a text for people that decides nothing; the
-- rows of this model do not have it.
unfoldable pub set_task_status : ℕ → TaskStatus → M Unit
unfolding update_task
set_task_status id status = update_task id (λ t. record t { status = status })

-- A new value that Python reads as false replaces nothing.
abbrev pub replaced : Option ℕ → Option ℕ → Option ℕ
replaced none old = old
replaced (some zero) old = old
replaced (some (suc new)) old = some (suc new)

unfoldable pub set_task_host_properties : ℕ → Option ℕ → Option ℕ → M Unit
unfolding update_task
set_task_host_properties id host process =
    update_task id
      λ t. record t { host = replaced host t.host; process_id = replaced process t.process_id }

unfoldable pub get_tasks_execution : M Execution
get_tasks_execution s = (ok s.execution, s)

-- The status is written to the row of the action too.
unfoldable pub set_execution_status : ExecutionStatus → M Unit
set_execution_status status s = (
  ok tt,
  record s { execution = record s.execution { status = status }; last_execution_status = status },
)

-- A request to another service: it is made, and it may fail.
unfoldable pub invoke : World → Call → M Unit
invoke w c s =
    (if w.succeeds (length s.log) c then ok tt else err call_failed, record s { log = c ∷ s.log })
