-- ===== src/Request.antt =====
-- Requests for a link: backend-vexxa/src/modules/link-request/application/link-request.service.ts.
pub mod Types
pub mod Campaign
pub mod Steps
pub mod Resolve
pub mod Create
pub mod Writes
pub mod Review
pub mod Backfill
mod Tests
