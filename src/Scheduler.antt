-- ===== src/Scheduler.antt =====
-- coriolis/scheduler: the choice of a worker service.
pub mod Filters
pub mod Selection
pub mod Client
pub mod Ranking
pub mod Ratings
pub mod Suitable
pub mod Retries
mod Cases
