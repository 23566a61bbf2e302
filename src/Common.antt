-- ===== src/Common.antt =====
-- What the service shares with its clients (crates/byos-common).
pub mod Trampoline
pub mod Eip712
pub mod Dto
pub mod Settlement
