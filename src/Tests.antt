-- ===== src/Tests.antt =====
-- The theorems at concrete inputs.
mod Gateway
mod Proxies
mod Tickets
mod Chat
mod Messages
mod Notification
mod Delivery
mod Presence
mod Media
mod Accounts
mod Services
mod Calls
