-- ===== src/Withdrawal.antt =====
-- Withdrawals of affiliate earnings: backend-vexxa/src/modules/withdrawal.
pub mod Calendar
pub mod Frequency
pub mod PinbetLimit
pub mod Types
pub mod Rows
pub mod Create
pub mod External
pub mod Manage
pub mod Gateway
pub mod Approve
pub mod Webhook
pub mod Reconcile
pub mod Lifecycle
pub mod Payout
pub mod Samples
