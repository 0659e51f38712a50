-- ===== src/Settlement.antt =====
-- The settlement of the takings of a shop.
pub mod Floats
pub mod Fees
pub mod Rates
pub mod Allocation
pub mod Grouping
pub mod Distribution
mod Sums
mod Identities
mod Coverage
mod Promises
mod Examples
