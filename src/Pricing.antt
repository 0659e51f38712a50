-- ===== src/Pricing.antt =====
-- The prices of the advertising orders (app/services/ad_pricing.py, app/models/ad.py).
pub mod Prices
pub mod Stored
pub mod Estimate
mod Examples
