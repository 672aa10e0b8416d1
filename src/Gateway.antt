-- ===== src/Gateway.antt =====
-- The gateway service (gateway/).
pub mod EdgeCache
pub mod LoadBalancer
pub mod Http
pub mod Tickets
pub mod Users
pub mod EdgeHandler
pub mod Proxy
