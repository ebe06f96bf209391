-- ===== src/Auth.antt =====
-- internal/auth: the resolution of API keys and of proxy keys, each behind an LRU cache.
pub mod Lru
pub mod Resolver
pub mod ProxyResolver
pub mod Tests
