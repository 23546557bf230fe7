-- ===== src/Conductor/Engine.antt =====
-- conductor/rpc/server.py: `_advance_execution_state` and `_cancel_tasks_execution` call each
-- other when a task cannot be started. The depth of these calls is bounded by fuel.
use cloudshift.Prelude.{ℕ, zero, suc, Bool, true, false, Option, List, length}
use cloudshift.Conductor.Store.{Execution, World, tasks_of}
use cloudshift.Conductor.Effects.{M, out_of_fuel, raise}
use cloudshift.Conductor.Cancel.{cancel_tasks_execution_with}
use cloudshift.Conductor.Advance.{advance_execution_state_with}

module _ (w : World) where
  unfoldable pub advance_execution_state : ℕ → Execution → Bool → Option ℕ → M (List ℕ)
  unfolding advance_execution_state_with cancel_tasks_execution_with
  advance_execution_state zero execution requery name = raise out_of_fuel
  advance_execution_state (suc fuel) execution requery name =
      advance_execution_state_with w
        (λ e. cancel_tasks_execution_with w (advance_execution_state fuel) e true false) execution
        requery name

  unfoldable pub cancel_tasks_execution : ℕ → Execution → Bool → Bool → M Unit
  unfolding advance_execution_state cancel_tasks_execution_with
  cancel_tasks_execution fuel = cancel_tasks_execution_with w (advance_execution_state fuel)

  -- What the handlers call: one more call for each task is deep enough.
  unfoldable pub run_advance : Execution → Bool → Option ℕ → M (List ℕ)
  unfolding advance_execution_state
  run_advance execution requery name s =
      advance_execution_state (suc (length (tasks_of s))) execution requery name s

  unfoldable pub run_cancel : Execution → Bool → Bool → M Unit
  unfolding cancel_tasks_execution
  run_cancel execution requery force s =
      cancel_tasks_execution (suc (length (tasks_of s))) execution requery force s
