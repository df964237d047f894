-- ===== src/Web.antt =====
-- The web server of webserver/.
pub mod Requests
pub mod Lru
pub mod Cache
mod Examples
mod CacheExamples
