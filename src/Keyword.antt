-- ===== src/Keyword.antt =====
-- The advertising keywords of the merchants (app/services/ad_keyword.py, app/models/ad_keyword.py).
pub mod Normalize
pub mod NormalForm
pub mod Store
pub mod Unique
pub mod Changes
pub mod Update
pub mod Create
pub mod History
pub mod Invariant
pub mod Preserved
pub mod Rotation
mod Examples
