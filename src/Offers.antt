-- ===== src/Offers.antt =====
-- packages/offerrail: proposals, commercial policy, negotiation and idempotency.
pub mod Time
pub mod Hosts
pub mod Policy
pub mod Proposals
pub mod Negotiation
pub mod Idempotency
pub mod Receipts
mod Tests
