-- ===== src/Proxy.antt =====
-- internal/proxy: the request path of the steward.
pub mod Region
pub mod Experiment
pub mod Headers
pub mod CloudConfig
pub mod Bodies
pub mod RequestLog
pub mod Compression
pub mod Request
pub mod Handler
pub mod Tests
