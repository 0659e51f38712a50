-- ===== src/Payout.antt =====
-- Paying out what was earned (app/services/settlement_service.py, app/api/admin/payout_routes.py,
-- app/api/owner/misc_routes.py, app/api/sales_routes.py).
pub mod Available
pub mod Requests
mod Covered
pub mod History
mod Examples
