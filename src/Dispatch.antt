-- ===== src/Dispatch.antt =====
-- The engine that places orders with the reward provider and keeps their ledger
-- (app/services/ad_dispatch.py, app/models/ad_dispatch.py).
pub mod State
pub mod Config
pub mod Preview
pub mod Gate
pub mod Provider
pub mod Rows
pub mod Execute
pub mod Orders
pub mod Track
pub mod Manual
pub mod Completion
pub mod Report
pub mod BlogDates
pub mod Blog
pub mod Ledger
pub mod Preserved
pub mod Requests
mod Kept
pub mod History
pub mod Split
pub mod Affordable
mod Executed
pub mod Once
mod Lookup
pub mod Sync
mod Spent
pub mod Retries
pub mod Totals
pub mod NextDay
pub mod Campaign
mod Examples
