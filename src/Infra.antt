-- ===== src/Infra.antt =====
-- The service around the domain (crates/byos/src/infra).
pub mod Storage
pub mod Api
pub mod Penalty
pub mod Validation
pub mod Orderbook
pub mod Blockchain
pub mod Audit
pub mod Retention
pub mod Steps
