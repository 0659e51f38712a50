-- ===== src/Login.antt =====
-- The limit on failed logins (app/services/login_guard.py) and the login (app/api/auth_routes.py).
pub mod Guard
pub mod Table
pub mod Lockout
pub mod Route
pub mod Burst
pub mod ClientIp
pub mod Spoofing
mod Examples
