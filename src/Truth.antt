-- ===== src/Truth.antt =====
-- The truth service (truth-service/app).
pub mod CacheMemory
pub mod Reader
pub mod Service
mod Tests
