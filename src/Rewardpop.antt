-- ===== src/Rewardpop.antt =====
-- The client of the reward provider (app/services/rewardpop.py).
pub mod Json
pub mod Counts
pub mod Status
pub mod Client
pub mod Unrepeated
mod Examples
