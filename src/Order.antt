-- ===== src/Order.antt =====
-- The order service (apps/order).
pub mod Model
pub mod Repository
pub mod Ports
pub mod Service
pub mod Settlement
pub mod Tables
pub mod Placement
pub mod Lifecycle
pub mod Cancellation
pub mod Settling
pub mod Queue
pub mod Outbox
pub mod Pages
pub mod Locking
pub mod Controller
mod Tests
