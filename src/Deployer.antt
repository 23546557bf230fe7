-- ===== src/Deployer.antt =====
-- coriolis/deployer_manager, with what the conductor does for it: deployments that wait for an
-- execution of their transfer.
pub mod Deployments
pub mod Manager
pub mod Launches
pub mod Failures
mod Cases
