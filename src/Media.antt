-- ===== src/Media.antt =====
-- The media service: media-service/internal.
pub mod Store
pub mod Objects
pub mod Uploads
pub mod Publishing
pub mod Controller
pub mod Serving
