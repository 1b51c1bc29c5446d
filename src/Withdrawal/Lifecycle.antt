-- ===== src/Withdrawal/Lifecycle.antt =====
-- The life of a withdrawal across all operations of the service: how each row may change.
-- Follows backend-vexxa/src/modules/withdrawal/application/withdrawal.service.ts.
pub mod Steps
pub mod Growth
pub mod Identity
pub mod Entries
pub mod Operations
pub mod Dispatch
pub mod Notices
pub mod Theorems
pub mod Delivery
mod Tests
