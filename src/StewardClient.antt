-- ===== src/StewardClient.antt =====
-- internal/stewardclient: the workers that talk to Butler.
pub mod Reporter
pub mod WorkTicker
pub mod KeySync
pub mod Results
pub mod ProviderKeySync
pub mod Managed
pub mod Tests
