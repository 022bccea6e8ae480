-- ===== src/Gateway.antt =====
-- The gateway (apps/gateway).
pub mod Errors
pub mod Access
pub mod Admission
mod Tests
