-- ===== src/Cron.antt =====
-- coriolis/cron and coriolis/transfer_cron: the jobs that start transfers at given times.
pub mod Jobs
pub mod Registry
pub mod Laws
mod Cases
