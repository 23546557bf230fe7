-- ===== src/Conductor/Verdict.antt =====
-- conductor/rpc/server.py, `_get_execution_status`: what the status of an execution says of its
-- tasks.
use cloudshift.Prelude.{◌≡◌, refl, Bool, true, not, ◌&&◌, ◌||◌, List, [], ◌∷◌, any, all, arith}
use cloudshift.Constants.{
  TaskStatus, is_active, is_canceled, is_scheduled, is_completed, is_on_error_only,
  is_finalized_execution,
}
use cloudshift.Conductor.Advance.{is_deadlocked_execution}
use cloudshift.Conductor.Status.{
  is_errored, is_cancelling, is_completed_execution, is_deadlocked, overall_status,
}

-- A task that has done its work, or that was not needed.
abbrev pub is_done : TaskStatus → Bool
is_done status = is_completed status || is_on_error_only status

cancelling_active :
    (stats : List TaskStatus) → any is_cancelling stats ≡ true → any is_active stats ≡ true
cancelling_active [] h = h
cancelling_active (a ∷ rest) h = ground (arith, cancelling_active rest)

done_flags :
    (stats : List TaskStatus)
    → all is_done stats ≡ (
        not (any is_scheduled stats)
        && not (any is_active stats)
        && not (any is_errored stats)
        && not (any is_canceled stats))
done_flags [] = refl
done_flags (a ∷ rest) = ground (arith, done_flags rest)

-- The status is a final one exactly when no task is active.
pub overall_status-finalized :
    (stats : List TaskStatus)
    → is_finalized_execution (overall_status stats) ≡ not (any is_active stats)
unfolding overall_status
overall_status-finalized stats = ground (arith, cancelling_active stats)

-- The status is COMPLETED exactly when each task is completed or is a cleanup task that was not
-- needed.
pub overall_status-completed :
    (stats : List TaskStatus) → is_completed_execution (overall_status stats) ≡ all is_done stats
unfolding overall_status
overall_status-completed stats = ground (arith, done_flags stats, cancelling_active stats)

-- The status is DEADLOCKED exactly for the tasks that the check for deadlocks finds deadlocked.
pub overall_status-deadlocked :
    (stats : List TaskStatus) → is_deadlocked_execution (overall_status stats) ≡ is_deadlocked stats
unfolding overall_status
overall_status-deadlocked stats = ground arith
