-- ===== src/Plan.antt =====
-- Plans of the merchants (app/services/plan_service.py).
pub mod Targets
pub mod Rows
pub mod Summary
mod Latest
mod Overrides
mod Effective
mod Examples
