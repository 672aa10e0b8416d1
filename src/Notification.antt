-- ===== src/Notification.antt =====
-- notification-service: events in, webhooks out.
pub mod Domain
pub mod Validation
pub mod Deliverer
pub mod Fanout
pub mod Dispatcher
pub mod Store
pub mod Http
