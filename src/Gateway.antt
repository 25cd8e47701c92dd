-- ===== src/Gateway.antt =====
-- crates/senix-core, the core of the gateway.
pub mod State
pub mod Instance
pub mod Schedule
pub mod Routes
pub mod Runtime
pub mod Tests
