-- ===== src/Sched.antt =====
-- The scheduler: temp/kernel/sched.
pub mod Task
pub mod Ts
pub mod Policy
pub mod PickNext
pub mod Change
pub mod Schedule
pub mod Setscheduler
pub mod Queries
pub mod Reach
pub mod Rt
mod Examples
