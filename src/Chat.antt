-- ===== src/Chat.antt =====
-- The chat service (chat-service/).
pub mod Domain
pub mod Room
pub mod Hub
pub mod Handler
pub mod Dispatcher
pub mod Messages
pub mod PresenceClient
