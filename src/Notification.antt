-- ===== src/Notification.antt =====
-- The notification service (apps/notification).
pub mod Model
pub mod Jobs
pub mod Providers
pub mod Dispatcher
pub mod Worker
pub mod Attempts
pub mod Outcome
pub mod Mail
pub mod Orders
mod Tests
