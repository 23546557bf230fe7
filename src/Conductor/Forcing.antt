-- ===== src/Conductor/Forcing.antt =====
-- conductor/rpc/server.py, `_cancel_tasks_execution` with `force`: what the loop makes of each task.
use cloudshift.Prelude.{
  ℕ, ◌≡◌, refl, true, false, ◌||◌, some, List, [], ◌∷◌, All, is_empty, if◌then◌else◌, Bool-cases,
  inl, inr, arith,
}
use cloudshift.Constants.{TaskStatus, is_active, is_failed_to_cancel}
use cloudshift.Conductor.Store.{Task, Store, World, status_of, tasks_of}
use cloudshift.Conductor.Effects.{for_each}
use cloudshift.Conductor.Cancel.{sort_tasks, cancel_by_status, cancel_one}
use cloudshift.Conductor.Evolves.{Distinct, ids_of}
use cloudshift.Conductor.Tracking.{Tracked, tracked_rows, All-sort_tasks, Distinct-sort_tasks}
use cloudshift.Conductor.Leaving.{Leaves, Leaves-set, Left, each-Left}
use cloudshift.Conductor.CancelRuns.{cancel_one-Touches}

-- A task that a worker has is force-canceled, a task that may start at once is unscheduled, a
-- cleanup task that waits for an error is scheduled, and any other is left.
abbrev pub forced_status : TaskStatus → List ℕ → TaskStatus
forced_status TaskStatus.scheduled deps =
    if is_empty deps then TaskStatus.unscheduled else TaskStatus.scheduled
forced_status TaskStatus.on_error_only deps = TaskStatus.scheduled
forced_status status deps =
    if is_active status || is_failed_to_cancel status then TaskStatus.force_canceled else status

abbrev pub outcome : Task → TaskStatus
outcome t = forced_status t.status t.depends_on

forced_idle : (status : TaskStatus) (deps : List ℕ) → is_active (forced_status status deps) ≡ false
forced_idle status deps = ground arith

module _ (w : World) where
  by_status-Leaves :
      (a : TaskStatus) (t : Task) (s : Store)
      → status_of t.id s ≡ some a
      → (is_active a || is_failed_to_cancel a) ≡ false
      → Leaves t.id (forced_status a t.depends_on) (cancel_by_status w true a t) s
  unfolding cancel_by_status
  by_status-Leaves TaskStatus.scheduled t s now idle = elim (Bool-cases (is_empty t.depends_on)) [
    | inl free ↦ rw free (Leaves-set t.id TaskStatus.unscheduled s now)
    | inr bound ↦ rw bound (refl, now)
  ]
  by_status-Leaves TaskStatus.on_error_only t s now idle =
      Leaves-set t.id TaskStatus.scheduled s now
  by_status-Leaves TaskStatus.pending t s now idle = cc
  by_status-Leaves TaskStatus.starting t s now idle = cc
  by_status-Leaves TaskStatus.running t s now idle = cc
  by_status-Leaves TaskStatus.failed_to_cancel t s now idle = cc
  by_status-Leaves TaskStatus.cancelling t s now idle = cc
  by_status-Leaves TaskStatus.cancelling_after_completion t s now idle = cc
  by_status-Leaves _ t s now idle = (refl, now)

  forced_active :
      (a : TaskStatus) (deps : List ℕ)
      → (is_active a || is_failed_to_cancel a) ≡ true
      → forced_status a deps ≡ TaskStatus.force_canceled
  forced_active a deps h = ground arith

  cancel_one-Leaves :
      (t : Task) (s : Store)
      → Tracked s t
      → Leaves t.id (forced_status t.status t.depends_on) (cancel_one w true t) s
  unfolding cancel_one
  cancel_one-Leaves t s now =
      elim (Bool-cases (is_active t.status || is_failed_to_cancel t.status)) [
        | inl held ↦
            rw (held, forced_active t.status t.depends_on held)
              (Leaves-set t.id TaskStatus.force_canceled s now)
        | inr idle ↦ rw idle (by_status-Leaves t.status t s now idle)
      ]

-- The loop of a forced cancellation over the tasks as they were read leaves each of them with the
-- status that the force gives it: a task that is active or whose cancellation failed is
-- FORCE_CANCELED, a scheduled task without parents UNSCHEDULED, a task that waits for an error
-- SCHEDULED, and any other as it was, so that none is active, if the identifiers of the tasks are
-- distinct.
pub cancel_one-Left :
    (w : World) (s : Store)
    → Distinct (ids_of s)
    → Left outcome
        (for_each (cancel_one w true) (sort_tasks (tasks_of s)) s).1
        (sort_tasks (tasks_of s))
      × All (λ t. is_active (outcome t) ≡ false) (tasks_of s)
cancel_one-Left w s d = (
  each-Left (cancel_one w true) outcome (cancel_one-Leaves w) (cancel_one-Touches w true)
      (sort_tasks (tasks_of s)) s
      (All-sort_tasks (Tracked s) (tasks_of s) (tracked_rows (tasks_of s) d))
      (Distinct-sort_tasks (tasks_of s) d),
  all_idle (tasks_of s),
)
  where
    all_idle : (ts : List Task) → All (λ t. is_active (outcome t) ≡ false) ts
    all_idle [] = tt
    all_idle (t ∷ ts) = (forced_idle t.status t.depends_on, all_idle ts)
