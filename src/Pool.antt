-- ===== src/Pool.antt =====
-- The pools of tracking links: backend-vexxa/src/modules/*-link-pool. A pool is a spreadsheet of
-- links of one house, from which pending requests are served.
pub mod Types
pub mod Houses
pub mod Commit
pub mod Assign
pub mod Backfill
mod Tests
