-- ===== src/Terminal.antt =====
-- The payments that the terminals send (app/api/terminal_routes.py, app/services/terminal_auth.py).
pub mod Auth
pub mod Ingest
pub mod Cancel
pub mod Held
pub mod Resent
pub mod Unsettled
mod Examples
