-- ===== src/Infra/Blockchain.antt =====
-- Chain access (crates/byos/src/infra/blockchain).
pub mod Escrow
pub mod Simulation
pub mod Judge
pub mod Operator
