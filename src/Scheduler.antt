-- ===== src/Scheduler.antt =====
-- executor/src/stack/scheduler.rs.
pub mod State
pub mod Closest
pub mod Agreement
pub mod Handlers
pub mod Tick
pub mod Step
pub mod Start
pub mod WellFormed
pub mod DeadNodes
pub mod Frame
pub mod Settled
pub mod Advertised
pub mod Revisions
pub mod Tests
