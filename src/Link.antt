-- ===== src/Link.antt =====
-- The rules by which a house gives an affiliate a link and its CPA:
-- backend-vexxa/src/modules/link-request.
pub mod Types
pub mod Tiers
pub mod Cpa
pub mod Cycle
mod Lowered
pub mod Dependency
pub mod Validation
