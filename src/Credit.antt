-- ===== src/Credit.antt =====
-- The advertising credit of the merchants (app/services/ad_credit.py, app/models/ad_credit.py).
pub mod State
pub mod Operations
pub mod Refunds
pub mod Balance
pub mod Outcomes
pub mod Report
pub mod History
pub mod Exact
mod Examples
pub mod RefundOutcomes
