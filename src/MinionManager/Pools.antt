-- ===== src/MinionManager/Pools.antt =====
-- coriolis/db/sqlalchemy/models.py: the rows of pools of minion machines. Identifiers, endpoints,
-- platforms, kinds of operating systems and moments are
-- numbers.
use cloudshift.Prelude.{ℕ, Bool, true, false, Option, List}

-- MINION_MACHINE_STATUS_*
pub data MachineStatus : Type 0 where
  uninitialized healthchecking allocating deallocating error powering_off : MachineStatus
  power_error error_deploying available in_use reserved : MachineStatus

-- MINION_POOL_STATUS_*
pub data PoolStatus : Type 0 where
  unknown error_status deallocated validating_inputs allocating_shared_resources : PoolStatus
  allocating_machines deallocating_machines deallocating_shared_resources : PoolStatus
  allocated in_maintenance : PoolStatus

-- MINION_MACHINE_POWER_STATUS_*
pub data PowerStatus : Type 0 where
  power_unknown power_uninitialized powered_on powered_off powering_on powering_off_now :
      PowerStatus

-- MINION_POOL_MACHINE_RETENTION_STRATEGY_*, and any other text
pub data RetentionStrategy : Type 0 where
  delete poweroff other : RetentionStrategy

pub record Machine : Type 0 where
  pub id : ℕ
  pub pool_id : ℕ
  pub allocation_status : MachineStatus
  pub allocated_action : Option ℕ
  pub power_status : PowerStatus
  pub last_used_at : Option ℕ

pub record Pool : Type 0 where
  pub id : ℕ
  pub endpoint_id : ℕ
  pub platform : ℕ
  pub os_type : ℕ
  pub status : PoolStatus
  pub minimum_minions : ℕ
  pub maximum_minions : ℕ
  pub minion_max_idle_time : ℕ
  pub minion_retention_strategy : RetentionStrategy
  pub machines : List Machine

abbrev pub is_available : MachineStatus → Bool
is_available MachineStatus.available = true
is_available _ = false
