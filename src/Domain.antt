-- ===== src/Domain.antt =====
-- The domain types and policies of the service (crates/byos/src/domain).
pub mod Proposal
pub mod Validator
pub mod Scoring
pub mod GasCut
pub mod Order
pub mod Penalty
pub mod Audit
pub mod Uid
