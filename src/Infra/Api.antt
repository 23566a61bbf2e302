-- ===== src/Infra/Api.antt =====
-- The HTTP handlers (crates/byos/src/infra/api).
pub mod Solve
pub mod Notify
pub mod Errors
pub mod Dto
pub mod Routes
pub mod Auth
