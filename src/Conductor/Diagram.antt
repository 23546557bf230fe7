-- ===== src/Conductor/Diagram.antt =====
-- The diagram of task statuses: what the conductor's handlers do to the status of one task.
use cloudshift.Prelude.{
  ◌≡◌, refl, Bool, true, false, not, ◌&&◌, ◌||◌, Option, none, some, arith, inl, inr, ◌⊎◌,
}
use cloudshift.Constants.{TaskStatus, is_active, is_finalized, is_failed_to_cancel}

-- Not started yet: the task waits for its parents, or for an error.
abbrev pub is_launchable : TaskStatus → Bool
is_launchable TaskStatus.scheduled = true
is_launchable TaskStatus.on_error_only = true
is_launchable _ = false

-- Finalized, except that a task whose cancellation failed may still be heard of.
abbrev pub is_settled : TaskStatus → Bool
is_settled status = is_finalized status && not (is_failed_to_cancel status)

-- The task runs, or is being cancelled, when its worker reports.
abbrev pub is_reported_late : TaskStatus → Bool
is_reported_late TaskStatus.cancelling = true
is_reported_late TaskStatus.cancelling_after_completion = true
is_reported_late TaskStatus.failed_to_cancel = true
is_reported_late _ = false

abbrev pub is_stoppable : TaskStatus → Bool
is_stoppable TaskStatus.running = true
is_stoppable TaskStatus.failed_to_cancel = true
is_stoppable _ = false

infix 40 ◌⟶◌ ◌⟶*◌
pub data ◌⟶◌ : TaskStatus → TaskStatus → Type 0 where
  launch : TaskStatus.scheduled ⟶ TaskStatus.pending
  arm : TaskStatus.on_error_only ⟶ TaskStatus.scheduled
  unschedule : TaskStatus.scheduled ⟶ TaskStatus.unscheduled
  withdraw : TaskStatus.pending ⟶ TaskStatus.unscheduled
  withdraw_starting : TaskStatus.starting ⟶ TaskStatus.unscheduled
  no_worker : TaskStatus.pending ⟶ TaskStatus.failed_to_schedule
  accept : TaskStatus.pending ⟶ TaskStatus.starting
  run : TaskStatus.starting ⟶ TaskStatus.running
  run_cleanup : TaskStatus.cancelling_after_completion ⟶ TaskStatus.running
  refuse_stop : TaskStatus.cancelling ⟶ TaskStatus.failed_to_cancel
  strand : {a : TaskStatus} → is_launchable a ≡ true → a ⟶ TaskStatus.canceled_from_deadlock
  debug : {a : TaskStatus} → is_launchable a ≡ true → a ⟶ TaskStatus.canceled_for_debugging
  force_cancel :
      {a : TaskStatus}
      → (is_active a || is_failed_to_cancel a) ≡ true
      → a ⟶ TaskStatus.force_canceled
  stop : {a : TaskStatus} → is_stoppable a ≡ true → a ⟶ TaskStatus.cancelling
  let_finish : {a : TaskStatus} → is_stoppable a ≡ true → a ⟶ TaskStatus.cancelling_after_completion
  complete :
      {a : TaskStatus} → (is_finalized a || is_reported_late a) ≡ false → a ⟶ TaskStatus.completed
  complete_late :
      {a : TaskStatus} → is_reported_late a ≡ true → a ⟶ TaskStatus.canceled_after_completion
  cancel : {a : TaskStatus} → is_settled a ≡ false → a ⟶ TaskStatus.canceled
  fail : {a : TaskStatus} → is_reported_late a ≡ false → a ⟶ TaskStatus.error

pub data ◌⟶*◌ : TaskStatus → TaskStatus → Type 0 where
  here : {a : TaskStatus} → a ⟶* a
  then : {a b c : TaskStatus} → a ⟶ b → b ⟶* c → a ⟶* c

pub ruleset edges = (
  here, then, launch, arm, unschedule, withdraw, withdraw_starting, no_worker, accept, run,
  run_cleanup, refuse_stop, strand, debug, force_cancel, stop, let_finish, complete, complete_late,
  cancel, fail,
)

pub edge : {a b : TaskStatus} → a ⟶ b → a ⟶* b
edge e = then e here

pub ⟶*_trans : {a b c : TaskStatus} → a ⟶* b → b ⟶* c → a ⟶* c
⟶*_trans here q = q
⟶*_trans (then e p) q = then e (⟶*_trans p q)

⟶-launched : {a b : TaskStatus} → a ⟶ b → is_launchable a ≡ false → is_launchable b ≡ false
⟶-launched arm h = cc
⟶-launched launch h = refl
⟶-launched _ h = refl

-- A task that was started never waits for its start again.
pub ⟶*-launched : {a b : TaskStatus} → a ⟶* b → is_launchable a ≡ false → is_launchable b ≡ false
⟶*-launched here h = h
⟶*-launched (then e p) h = ⟶*-launched p (⟶-launched e h)

-- The one edge from a settled status leads to ERROR.
⟶-settled : {a b : TaskStatus} → a ⟶ b → is_settled a ≡ true → b ≡ TaskStatus.error
⟶-settled (fail e) h = refl
⟶-settled (stop {a} e) h = ground arith
⟶-settled (let_finish {a} e) h = ground arith
⟶-settled (strand {a} e) h = ground arith
⟶-settled (debug {a} e) h = ground arith
⟶-settled (force_cancel {a} e) h = ground arith
⟶-settled (complete {a} e) h = ground arith
⟶-settled (complete_late {a} e) h = ground arith
⟶-settled (cancel {a} e) h = ground arith
⟶-settled arm h = cc
⟶-settled launch h = cc
⟶-settled unschedule h = cc
⟶-settled withdraw h = cc
⟶-settled withdraw_starting h = cc
⟶-settled no_worker h = cc
⟶-settled accept h = cc
⟶-settled run h = cc
⟶-settled run_cleanup h = cc
⟶-settled refuse_stop h = cc

⟶*-error : {a b : TaskStatus} → a ⟶* b → a ≡ TaskStatus.error → b ≡ TaskStatus.error
⟶*-error here e = e
⟶*-error (then s p) e = ⟶*-error p (⟶-settled s (rw e refl))

-- A settled status stays as it is, or turns into ERROR.
pub ⟶*-settled :
    {a b : TaskStatus} → a ⟶* b → is_settled a ≡ true → (b ≡ a) ⊎ (b ≡ TaskStatus.error)
⟶*-settled here h = inl refl
⟶*-settled (then s p) h = inr (⟶*-error p (⟶-settled s h))

-- A status of a row that may be missing.
pub data Moves : Option TaskStatus → Option TaskStatus → Type 0 where
  absent : Moves none none
  moved : {a b : TaskStatus} → a ⟶* b → Moves (some a) (some b)

pub Moves-refl : (o : Option TaskStatus) → Moves o o
Moves-refl none = absent
Moves-refl (some a) = moved here

pub Moves-trans : {o p q : Option TaskStatus} → Moves o p → Moves p q → Moves o q
Moves-trans absent m = m
Moves-trans (moved p) (moved q) = moved (⟶*_trans p q)
