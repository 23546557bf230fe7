-- ===== src/Construction.antt =====
-- coriolis/conductor/rpc/server.py: how an execution and its tasks are made, and the check of a
-- new execution; coriolis/tasks: what each kind of task reads and returns.
pub mod Fields
pub mod Build
pub mod Sanity
pub mod Transfer
pub mod Deployment
pub mod Updates
pub mod Ordered
pub mod Graphs
pub mod Outcomes
pub mod Rounds
pub mod SanityLaws
pub mod Readiness
pub mod OrderedLaws
pub mod Scheduled
pub mod Keys
pub mod TransferPasses
pub mod DeploymentPasses
pub mod Executions
mod Cases
