-- ===== src/Api.antt =====
-- internal/api: the parts of the server in front of the client.
pub mod RateLimit
pub mod ReadCache
pub mod CacheScope
