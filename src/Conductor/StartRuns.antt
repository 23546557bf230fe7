-- ===== src/Conductor/StartRuns.antt =====
-- The start of one task, on a worker that may be missing or may refuse it.
use cloudshift.Prelude.{
  ℕ, suc, ◌<◌, ◌≡◌, refl, ◌∙◌, ◌≢◌, some, ◌∷◌, length, Bool-cases, inl, inr, arith,
}
use cloudshift.Constants.{TaskStatus}
use cloudshift.Conductor.Store.{
  Store, World, Call, get_worker_service, begin_task, status_of, tasks_of,
}
use cloudshift.Conductor.Effects.{Result, ok, err, call_failed, out_of_fuel, invoke}
use cloudshift.Conductor.Advance.{begin_on_worker}
use cloudshift.Conductor.Diagram.{edge, launch, no_worker}
use cloudshift.Conductor.Rows.{launchable, with_status, set_task_status_ok, launchable-set_status}
use cloudshift.Conductor.Evolves.{
  begun, Evolves, Evolves-trans, Evolves-quiet, Evolves-with_status, status_of-with_status,
}

-- The store with one more call.
abbrev pub called : Call → Store → Store
called c s = record s { log = c ∷ s.log }

-- What one attempt to start a task does: the task is not waiting for its start any more.
pub record Attempted (s : Store) (r : Result Unit) (s' : Store) : Type 0 where
  pub evolves : Evolves s s'
  pub fewer : launchable (tasks_of s') < launchable (tasks_of s)
  pub fine : r ≢ err out_of_fuel

module _ (w : World) (id : ℕ) where
  -- The store after the workers were asked, from that in which the task is pending.
  abbrev asked : Store → Store
  asked s = called (get_worker_service id) s

  pub data Outcome (s : Store) : Result Unit → Store → Type 0 where
    unplaced : Outcome s (err call_failed) (with_status id TaskStatus.failed_to_schedule (asked s))
    refused : Outcome s (err call_failed) (called (begin_task id) (asked s))
    accepted : Outcome s (ok tt) (called (begin_task id) (asked s))

  pub begin-Outcome :
      (s : Store) {a : TaskStatus}
      → status_of id s ≡ some a
      → Outcome s (begin_on_worker w id s).0 (begin_on_worker w id s).1
  unfolding begin_on_worker invoke
  begin-Outcome s now = elim (Bool-cases (w.succeeds (length s.log) (get_worker_service id))) [
    | inr none_found ↦
        rw (none_found, set_task_status_ok id TaskStatus.failed_to_schedule (asked s) now) unplaced
    | inl found ↦ elim (Bool-cases (w.succeeds (suc (length s.log)) (begin_task id))) [
      | inl fine ↦ rw (found, fine) accepted
      | inr failed ↦ rw (found, failed) refused
    ]
  ]

  module _ (s : Store) (now : status_of id s ≡ some TaskStatus.scheduled) where
    pending-Evolves : Evolves s (with_status id TaskStatus.pending s)
    pending-Evolves = Evolves-with_status id TaskStatus.pending s now (edge launch) (omega arith)

    pub pending_now : status_of id (with_status id TaskStatus.pending s) ≡ some TaskStatus.pending
    pending_now = status_of-with_status id TaskStatus.pending s now id ∙ ground arith

    pending_fewer :
        launchable (tasks_of (with_status id TaskStatus.pending s)) < launchable (tasks_of s)
    pending_fewer = omega (arith, launchable-set_status id TaskStatus.pending s.execution.tasks now)

    begun-Evolves : Evolves s (called (begin_task id) (asked (with_status id TaskStatus.pending s)))
    unfolding begun
    begun-Evolves = record {
      moves = pending-Evolves.moves;
      launches = pending-Evolves.launches;
      begins =
          λ j. ground (arith, status_of-with_status id TaskStatus.pending s now j, now, same j);
      same_ids = pending-Evolves.same_ids;
    }
      where
        same : (j : ℕ) → id ≡ j → status_of j s ≡ some TaskStatus.scheduled
        same j e = cc

    unplaced-Evolves :
        Evolves s (
          with_status id TaskStatus.failed_to_schedule
            (asked (with_status id TaskStatus.pending s)))
    unfolding begun
    unplaced-Evolves = Evolves-trans pending-Evolves (
        Evolves-trans
          (Evolves-quiet (with_status id TaskStatus.pending s)
            (asked (with_status id TaskStatus.pending s)) refl (λ _. refl))
          (Evolves-with_status id TaskStatus.failed_to_schedule
            (asked (with_status id TaskStatus.pending s)) pending_now (edge no_worker)
            (omega arith)))

    Outcome-Attempted :
        {r : Result Unit} {s' : Store}
        → Outcome (with_status id TaskStatus.pending s) r s'
        → Attempted s r s'
    Outcome-Attempted unplaced = record {
      evolves = unplaced-Evolves;
      fewer = omega (
        arith,
        pending_fewer,
        launchable-set_status id TaskStatus.failed_to_schedule
            (tasks_of (with_status id TaskStatus.pending s)) pending_now,
      );
      fine = λ e. cc;
    }
    Outcome-Attempted refused = record {
      evolves = begun-Evolves;
      fewer = pending_fewer;
      fine = λ e. cc;
    }
    Outcome-Attempted accepted = record {
      evolves = begun-Evolves;
      fewer = pending_fewer;
      fine = λ e. cc;
    }

    pub begin-Attempted :
        Attempted s
          (begin_on_worker w id (with_status id TaskStatus.pending s)).0
          (begin_on_worker w id (with_status id TaskStatus.pending s)).1
    begin-Attempted =
        Outcome-Attempted (begin-Outcome (with_status id TaskStatus.pending s) pending_now)
