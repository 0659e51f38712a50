-- ===== src/Orders.antt =====
-- The advertising orders of the merchants (app/api/owner/ad_owner_routes.py,
-- app/api/admin/ad_routes.py, app/api/admin/_helpers.py).
pub mod State
pub mod Payment
pub mod Create
pub mod Shorts
pub mod Status
pub mod Requests
pub mod Sums
pub mod Others
pub mod Held
pub mod Guards
pub mod Ordered
pub mod Undone
pub mod Synced
pub mod Changed
pub mod History
pub mod Rejected
pub mod Limit
mod Examples
