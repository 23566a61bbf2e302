-- ===== src/Subsolver.antt =====
-- The reference sub-solver (crates/subsolver).
pub mod Routing
pub mod Proposal
pub mod Wire
pub mod Run
pub mod Client
