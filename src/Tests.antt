-- ===== src/Tests.antt =====
-- The properties at concrete inputs.
mod Data
mod Codecs
mod Edge
mod RouteTests
mod EdgeTests
mod DomainTests
mod StoreTests
mod ApiTests
mod LoopTests
