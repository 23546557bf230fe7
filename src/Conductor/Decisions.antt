-- ===== src/Conductor/Decisions.antt =====
-- conductor/rpc/server.py, `_advance_execution_state`: when a scheduled task that has parents is
-- started, unscheduled or left to wait.
use cloudshift.Prelude.{
  ℕ, ◌≡◌, refl, Bool, true, false, not, ◌&&◌, ◌||◌, List, [], ◌∷◌, any, all, filter, contains,
  is_empty, Dict, arith,
}
use cloudshift.Constants.{TaskStatus, is_finalized, is_completed, is_unscheduled, triggers_cleanup}
use cloudshift.Conductor.Advance.{Decision, start, wait, values, decide}

abbrev pub is_start : Decision → Bool
is_start start = true
is_start _ = false

abbrev pub is_wait : Decision → Bool
is_wait wait = true
is_wait _ = false

-- The parents that are not cleanup tasks themselves.
abbrev pub workers : List ℕ → Dict TaskStatus → Dict TaskStatus
workers on_error_tasks parents = filter (λ e. not (contains e.0 on_error_tasks)) parents

unscheduled_finalized :
    (stats : List TaskStatus) → all is_unscheduled stats ≡ true → all is_finalized stats ≡ true
unscheduled_finalized [] h = h
unscheduled_finalized (a ∷ rest) h = ground (arith, unscheduled_finalized rest)

completed_finalized :
    (stats : List TaskStatus) → all is_completed stats ≡ true → all is_finalized stats ≡ true
completed_finalized [] h = h
completed_finalized (a ∷ rest) h = ground (arith, completed_finalized rest)

not_completed :
    (stats : List TaskStatus) → all is_unscheduled stats ≡ true → any is_completed stats ≡ false
not_completed [] h = refl
not_completed (a ∷ rest) h = ground (arith, not_completed rest)

-- A task waits exactly while one of its parents has not finalized.
pub decide-wait :
    (on_error_tasks : List ℕ) (id : ℕ) (parents : Dict TaskStatus)
    → is_wait (decide on_error_tasks id parents) ≡ not (all is_finalized (values parents))
unfolding decide
decide-wait on_error_tasks id parents = ground (arith, unscheduled_finalized (values parents))

some_not_unscheduled :
    (id : ℕ) (a : TaskStatus) (parents : Dict TaskStatus)
    → all is_completed (values ((id, a) ∷ parents)) ≡ true
    → all is_unscheduled (values ((id, a) ∷ parents)) ≡ false
some_not_unscheduled id a parents h = ground arith

-- A task that is no cleanup task is started exactly when all its parents, of which there is one at
-- least, are COMPLETED.
pub decide-start :
    (on_error_tasks : List ℕ) (id p : ℕ) (a : TaskStatus) (parents : Dict TaskStatus)
    → contains id on_error_tasks ≡ false
    → is_start (decide on_error_tasks id ((p, a) ∷ parents))
      ≡ all is_completed (values ((p, a) ∷ parents))
unfolding decide
decide-start on_error_tasks id p a parents normal =
    ground
      (arith, some_not_unscheduled p a parents, completed_finalized (values ((p, a) ∷ parents)))

no_trigger :
    (on_error_tasks : List ℕ) (parents : Dict TaskStatus)
    → all is_unscheduled (values parents) ≡ true
    → any triggers_cleanup (values (workers on_error_tasks parents)) ≡ false
no_trigger on_error_tasks [] h = refl
no_trigger on_error_tasks ((p, a) ∷ rest) h = ground (arith, no_trigger on_error_tasks rest)

-- A cleanup task is started exactly when all its parents have finalized and either a parent that is
-- no cleanup task has done its work (COMPLETED or CANCELED_AFTER_COMPLETION), or all parents are
-- cleanup tasks and one of them is COMPLETED.
pub decide-start-on_error :
    (on_error_tasks : List ℕ) (id : ℕ) (parents : Dict TaskStatus)
    → contains id on_error_tasks ≡ true
    → is_start (decide on_error_tasks id parents) ≡ (
        all is_finalized (values parents)
        && (any triggers_cleanup (values (workers on_error_tasks parents))
            || is_empty (workers on_error_tasks parents) && any is_completed (values parents)))
unfolding decide
decide-start-on_error on_error_tasks id parents cleanup = ground (
  arith,
  unscheduled_finalized (values parents),
  not_completed (values parents),
  no_trigger on_error_tasks parents,
)
