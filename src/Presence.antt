-- ===== src/Presence.antt =====
-- The presence service: presence-service/internal.
pub mod Redis
pub mod Repository
pub mod History
pub mod Service
