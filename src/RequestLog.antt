-- ===== src/RequestLog.antt =====
-- internal/requestlog/writer.go and what it writes through: internal/repositories/active_keys_cache.go and
-- hll_manager.go.
pub mod ActiveKeys
pub mod Hll
pub mod Writer
pub mod Tests
