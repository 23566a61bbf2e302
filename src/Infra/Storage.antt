-- ===== src/Infra/Storage.antt =====
-- The Postgres-backed proposal store (crates/byos/src/infra/storage.rs and the tables of
-- crates/byos/migrations).
pub mod Rows
pub mod Db
pub mod Ops
pub mod Outcomes
pub mod Queues
pub mod Queries
pub mod Trail
pub mod Invariant
pub mod Effects
pub mod Preserve
pub mod Settlement
pub mod Bulk
pub mod Release
pub mod Decoding
pub mod Snapshots
pub mod Grouping
pub mod Swaps
pub mod Starts
pub mod Races
pub mod Lifecycle
pub mod Charges
pub mod History
pub mod References
