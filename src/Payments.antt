-- ===== src/Payments.antt =====
-- apps/api/autonomerce/payments: policy-bound USDC payments.
pub mod Errors
pub mod Models
pub mod Gate
pub mod Store
pub mod Verification
pub mod Processor
pub mod Reconciler
mod Tests
