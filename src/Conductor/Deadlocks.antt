-- ===== src/Conductor/Deadlocks.antt =====
-- conductor/rpc/server.py, `_check_clean_execution_deadlock`: what the cleanup of a deadlock makes of
-- each task.
use cloudshift.Prelude.{
  ◌≡◌, refl, ap, sym, subst, ◌∙◌, true, ◌||◌, some, List, [], ◌∷◌, map, All, if◌then◌else◌,
  Bool-cases, inl, inr,
}
use cloudshift.Constants.{TaskStatus, ExecutionStatus, is_scheduled, is_on_error_only}
use cloudshift.Conductor.Store.{Task, Execution, Store, World, status_in, tasks_of}
use cloudshift.Conductor.Effects.{M, Result, ok, err, pure, and_then, for_each, ◌>>◌}
use cloudshift.Conductor.Status.{
  statuses_of, status_map, is_deadlocked, cancel_deadlocked, clean_deadlock,
  set_tasks_execution_status,
}
use cloudshift.Conductor.Evolves.{Distinct, ids_of}
use cloudshift.Conductor.Tracking.{Tracked, tracked_rows}
use cloudshift.Conductor.Quiet.{Quiet-seq, Quiet-pure, set_tasks_execution_status-Quiet}
use cloudshift.Conductor.AdvanceRuns.{cancel_deadlocked-Touches}
use cloudshift.Conductor.Leaving.{Leaves, Leaves-set, Left, each-Left, each-ok}
use cloudshift.Conductor.Stranding.{statuses-status_map}

-- A task that waits is stranded, any other is left.
abbrev pub stranded : Task → TaskStatus
stranded t =
    if is_scheduled t.status || is_on_error_only t.status
    then TaskStatus.canceled_from_deadlock
    else t.status

continued :
    {A B : Type 0} (r : Result A) (k k' : M B) (s : Store)
    → ((s : Store) → k s ≡ k' s)
    → and_then r (λ _. k) s ≡ and_then r (λ _. k') s
continued (ok a) k k' s same = same s
continued (err e) k k' s same = refl

module _ (w : World) where
  abbrev round : Task → M Unit
  round t = cancel_deadlocked w (t.id, t.status)

  round-Leaves : (t : Task) (s : Store) → Tracked s t → Leaves t.id (stranded t) (round t) s
  unfolding cancel_deadlocked
  round-Leaves t s now = elim (Bool-cases (is_scheduled t.status || is_on_error_only t.status)) [
    | inl waits ↦ rw waits (Leaves-set t.id TaskStatus.canceled_from_deadlock s now)
    | inr other ↦ rw other (refl, now)
  ]

  -- The loop over the map of the statuses is one over the tasks.
  each-map :
      (ts : List Task) (s : Store)
      → for_each (cancel_deadlocked w) (status_map ts) s ≡ for_each round ts s
  unfolding for_each
  each-map [] s = refl
  each-map (t ∷ ts) s = continued (round t s).0 _ _ (round t s).1 (each-map ts)

after_ok :
    {A B : Type 0} (m : M A) (k : M B) (s : Store) {a : A}
    → (m s).0 ≡ ok a
    → ((m >> k) s).1 ≡ (k (m s).1).1
after_ok m k s fine = rw fine refl

-- The cleanup of a deadlock leaves each task that was SCHEDULED, or that waited for an error, with
-- the status of a task stranded by a deadlock and each other task as it was, whatever becomes of the
-- calls that it sets off, if the identifiers of the tasks are distinct.
pub clean_deadlock-Left :
    (w : World) (execution : Execution) (s : Store)
    → Distinct (ids_of s)
    → is_deadlocked (statuses_of (tasks_of s)) ≡ true
    → Left stranded (clean_deadlock w execution (status_map (tasks_of s)) s).1 (tasks_of s)
unfolding clean_deadlock
clean_deadlock-Left w execution s d stuck =
    let each = for_each (cancel_deadlocked w) (status_map (tasks_of s)) in
    let loop = for_each (round w) (tasks_of s) in
    let write = set_tasks_execution_status w execution ExecutionStatus.deadlocked in
    let last : M ExecutionStatus = pure ExecutionStatus.deadlocked in
    let tracked = tracked_rows (tasks_of s) d in
    let fine =
      each-ok (round w) stranded (round-Leaves w) (cancel_deadlocked-Touches 0 w) (tasks_of s) s
        tracked d in
    let left =
      each-Left (round w) stranded (round-Leaves w) (cancel_deadlocked-Touches 0 w) (tasks_of s) s
        tracked d in
    let same = each-map w (tasks_of s) s in
    let quiet =
      Quiet-seq write last (set_tasks_execution_status-Quiet w execution ExecutionStatus.deadlocked)
        (Quiet-pure _) in
    let kept = (quiet.hushed (each s).1).same_tasks in
    let stuck' : is_deadlocked (map (λ e. e.1) (status_map (tasks_of s))) ≡ true =
      ap is_deadlocked (statuses-status_map (tasks_of s)) ∙ stuck in
    let ended : (clean_deadlock w execution (status_map (tasks_of s)) s).1
        ≡ ((write >> last) (each s).1).1 =
      rw stuck' (after_ok each (write >> last) s (ap (λ r. r.0) same ∙ fine)) in
    let same_rows : tasks_of (clean_deadlock w execution (status_map (tasks_of s)) s).1
        ≡ tasks_of (loop s).1 =
      ap tasks_of ended ∙ kept ∙ ap (λ r. tasks_of r.1) same in
    subst (λ rows'. All (λ t. status_in t.id rows' ≡ some (stranded t)) (tasks_of s))
      (sym same_rows) left
