-- ===== src/Steward.antt =====
-- internal/steward: the workers that run for each registered organisation.
pub mod Workers
pub mod Tests
