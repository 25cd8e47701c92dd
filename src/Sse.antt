-- ===== src/Sse.antt =====
-- The server-sent event benchmark: the fixture server (benchmarks/sse-backend.mjs) and the load
-- generator that checks each stream of it (benchmarks/sse-load.mjs).
pub mod Frame
pub mod Reader
pub mod Backend
pub mod Load
pub mod Reference
pub mod Delivery
mod Tests
