-- ===== src/Conductor.antt =====
-- coriolis/conductor/rpc/server.py: the life of the tasks of one execution.
pub mod Store
pub mod Effects
pub mod Status
pub mod Cancel
pub mod Advance
pub mod Engine
pub mod Results
pub mod Reports
pub mod Launch
pub mod Minions
pub mod Requests
pub mod Verdict
pub mod CancelLaws
pub mod Order
pub mod InfoLaws
pub mod Acceptance
pub mod Decisions
pub mod Diagram
pub mod Rows
pub mod Evolves
pub mod Runs
pub mod Tracking
pub mod CancelRuns
pub mod Quiet
pub mod Touches
pub mod StartRuns
pub mod LoopRuns
pub mod AdvanceRuns
pub mod Stranding
pub mod Agreement
pub mod ResultRuns
pub mod ReportRuns
pub mod HandlerRuns
pub mod ErrorRuns
pub mod LaunchRuns
pub mod MinionRuns
pub mod RequestRuns
pub mod MinionLaws
pub mod Leaving
pub mod Forcing
pub mod Deadlocks
pub mod Life
mod Examples
mod Cases
