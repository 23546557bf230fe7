-- ===== src/MinionManager.antt =====
-- coriolis/minion_manager: the machines of a pool that an action is given.
pub mod Pools
pub mod Allocation
pub mod Capacity
pub mod Selections
pub mod Writes
pub mod Rows
pub mod Rollback
pub mod Refresh
pub mod Minimum
pub mod Checks
pub mod Groups
pub mod Selected
pub mod Idle
pub mod Assign
pub mod Served
pub mod Mappings
pub mod Owned
pub mod Chosen
pub mod Recorded
pub mod Steps
pub mod Permissions
pub mod Complete
pub mod Provided
pub mod Release
pub mod Released
pub mod Deallocated
pub mod Returned
pub mod Recovery
pub mod Recovered
mod Cases
