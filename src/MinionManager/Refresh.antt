-- ===== src/MinionManager/Refresh.antt =====
-- minion_manager/rpc/server.py, `_get_minion_pool_refresh_flow` and `refresh_minion_pool`: which
-- machines of a pool are shut down or checked, and the statuses that they are given. What the flow
-- does with a machine later is that of its tasks, and not modelled; nor are events.
use cloudshift.Prelude.{
  ℕ, ◌+◌, ◌-◌, Bool, true, false, not, ◌&&◌, Option, none, some, List, [], ◌∷◌, map, length, filter,
  contains, leb, if◌then◌else◌,
}
use cloudshift.Prelude.Results.{Fallible, done, raised}
use cloudshift.MinionManager.Pools.{
  Machine, Pool, MachineStatus, PoolStatus, PowerStatus, RetentionStrategy,
}
use cloudshift.MinionManager.Allocation.{AllocationError}

-- Not one of `ignorable_machine_statuses`.
abbrev pub is_counted : MachineStatus → Bool
is_counted MachineStatus.deallocating = false
is_counted MachineStatus.powering_off = false
is_counted MachineStatus.error = false
is_counted MachineStatus.power_error = false
is_counted MachineStatus.error_deploying = false
is_counted _ = true

abbrev pub is_healthcheckable : MachineStatus → Bool
is_healthcheckable MachineStatus.available = true
is_healthcheckable MachineStatus.error = true
is_healthcheckable MachineStatus.power_error = true
is_healthcheckable MachineStatus.error_deploying = true
is_healthcheckable _ = false

abbrev pub counted_machines : List Machine → ℕ
counted_machines machines = length (filter (λ m. is_counted m.allocation_status) machines)

-- The difference is only compared with 0 and counted_machines down, so it stops at 0 here.
abbrev pub max_minions_to_deallocate : Pool → ℕ
max_minions_to_deallocate pool = counted_machines pool.machines - pool.minimum_minions

abbrev pub minion_expired : (now max_idle_time : ℕ) (last_used_at : Option ℕ) → Bool
minion_expired now max_idle_time none = true
minion_expired now max_idle_time (some moment) = leb (moment + max_idle_time) now

abbrev pub is_off : PowerStatus → Bool
is_off PowerStatus.powered_off = true
is_off PowerStatus.powering_off_now = true
is_off _ = false

abbrev pub is_on : PowerStatus → Bool
is_on PowerStatus.powered_on = true
is_on _ = false

-- What becomes of one machine: it is skipped; it is off already, and counted_machines out; it is shut down;
-- it is checked; or the strategy of the pool is unknown.
pub data Step : Type 0 where
  skip already_off shut_down healthcheck unknown_strategy : Step

abbrev pub retire : RetentionStrategy → PowerStatus → Step
retire RetentionStrategy.poweroff power = if is_off power then Step.already_off else Step.shut_down
retire RetentionStrategy.delete power = Step.shut_down
retire RetentionStrategy.other power = Step.unknown_strategy

unfoldable pub refresh_step : (now : ℕ) → Pool → (to_deallocate : ℕ) → Machine → Step
refresh_step now pool to_deallocate m =
    if not (is_healthcheckable m.allocation_status)
    then Step.skip
    else (if leb 1 to_deallocate && minion_expired now pool.minion_max_idle_time m.last_used_at
        then retire pool.minion_retention_strategy m.power_status
        else (if is_on m.power_status then Step.healthcheck else Step.skip))

abbrev pub count_down : Step → ℕ → ℕ
count_down Step.already_off n = n - 1
count_down Step.shut_down n = n - 1
count_down _ n = n

pub record Plan : Type 0 where
  pub to_deallocate : List ℕ
  pub to_healthcheck : List ℕ

abbrev pub add_step : Step → (machine_id : ℕ) → Option Plan → Option Plan
add_step Step.unknown_strategy id plan = none
add_step Step.shut_down id (some plan) =
    some (record plan { to_deallocate = id ∷ plan.to_deallocate })
add_step Step.healthcheck id (some plan) =
    some (record plan { to_healthcheck = id ∷ plan.to_healthcheck })
add_step Step.skip id (some plan) = some plan
add_step Step.already_off id (some plan) = some plan
add_step _ id none = none

-- The loop over the machines; none is InvalidMinionPoolState for an unknown strategy.
unfoldable pub plan_machines : (now : ℕ) → Pool → List Machine → (to_deallocate : ℕ) → Option Plan
unfolding refresh_step
plan_machines now pool [] n = some (record { to_deallocate = []; to_healthcheck = [] })
plan_machines now pool (m ∷ machines) n =
    let step = refresh_step now pool n m in
    let rest = plan_machines now pool machines (count_down step n) in add_step step m.id rest

abbrev pub status_for_deallocated_machines : RetentionStrategy → MachineStatus
status_for_deallocated_machines RetentionStrategy.poweroff = MachineStatus.powering_off
status_for_deallocated_machines _ = MachineStatus.deallocating

-- The statuses of the machines to be shut down are written first, then those of the others.
abbrev pub mark_machine : RetentionStrategy → Plan → Machine → Machine
mark_machine strategy plan m =
    let first =
      if contains m.id plan.to_deallocate
      then record m { allocation_status = status_for_deallocated_machines strategy }
      else m in
    if contains m.id plan.to_healthcheck
    then record first { allocation_status = MachineStatus.healthchecking }
    else first

abbrev pub mark_all : Pool → Option Plan → Fallible AllocationError (List Machine)
mark_all pool none = raised AllocationError.invalid_minion_pool_state
mark_all pool (some plan) =
    done (map (mark_machine pool.minion_retention_strategy plan) pool.machines)

abbrev pub is_allocated : PoolStatus → Bool
is_allocated PoolStatus.allocated = true
is_allocated _ = false

-- `refresh_minion_pool`: the machines of the pool with the statuses they are given.
unfoldable pub refresh_minion_pool : (now : ℕ) → Pool → Fallible AllocationError (List Machine)
unfolding plan_machines
refresh_minion_pool now pool =
    if is_allocated pool.status
    then mark_all pool (plan_machines now pool pool.machines (max_minions_to_deallocate pool))
    else raised AllocationError.invalid_minion_pool_state
