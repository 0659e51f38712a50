-- ===== src/Scheduler.antt =====
-- The daily and monthly runs of the advertising (app/services/ad_dispatch_scheduler.py).
pub mod Clock
pub mod Lock
pub mod Runs
mod FirstWeekday
mod Exclusion
mod Once
mod Examples
