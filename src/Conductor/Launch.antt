-- ===== src/Conductor/Launch.antt =====
-- conductor/rpc/server.py, `_begin_tasks`: the start of an execution.
use cloudshift.Prelude.{ℕ, Bool, true, false, ◌&&◌, List, [], ◌∷◌, ◌++◌, is_empty, if◌then◌else◌}
use cloudshift.Constants.{ExecutionStatus, is_scheduled}
use cloudshift.Conductor.Store.{Task, Execution, World, create_trust}
use cloudshift.Conductor.Effects.{
  M, ok, invalid_action_tasks_execution_state, pure, raise, get, ◌>>=◌, ◌>>◌, for_fold, invoke,
}
use cloudshift.Conductor.Status.{set_tasks_execution_status}
use cloudshift.Conductor.Engine.{run_cancel}
use cloudshift.Conductor.Advance.{start_task}

module _ (w : World) where
  -- One task of the loop of `_begin_tasks`; its start and the reaction to a failure are those of
  -- a state advancement.
  unfoldable pub begin_one : Execution → List ℕ → Task → M (List ℕ)
  unfolding start_task run_cancel
  begin_one execution started t =
      if is_empty t.depends_on && is_scheduled t.status
      then (do
        start_task w (λ e. run_cancel w e true false) execution t.id
        pure (started ++ t.id ∷ []))
      else pure started

  unfoldable pub finish_begin : Execution → List ℕ → M Unit
  unfolding set_tasks_execution_status
  finish_begin execution [] = raise invalid_action_tasks_execution_state
  finish_begin execution (id ∷ ids) = set_tasks_execution_status w execution ExecutionStatus.running

  -- `create_trust` gives the context a trust.
  unfoldable pub ensure_trust : Bool → M Unit
  ensure_trust delete_trust_id = do
    s ← get
    if s.trust_id then pure tt else (do
      invoke w create_trust
      (λ s. (ok tt, record s { trust_id = true; delete_trust_id = delete_trust_id })))

  unfoldable pub begin_tasks : Execution → Bool → M Unit
  unfolding ensure_trust begin_one finish_begin for_fold
  begin_tasks execution delete_trust_id = do
    ensure_trust delete_trust_id
    started ← for_fold (begin_one execution) [] execution.tasks
    finish_begin execution started
