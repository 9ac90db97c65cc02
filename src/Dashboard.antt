-- ===== src/Dashboard.antt =====
-- The dashboard (dashboard/app).
pub mod MetricsStore
pub mod Routes
pub mod Prune
pub mod SafetyMonitor
pub mod PgPoller
mod Tests
