-- ===== src/ControlPlane.antt =====
-- The control plane (control-plane).
pub mod Containers
pub mod TestRuns
pub mod Jobs
pub mod CascadeInject
pub mod Pressure
pub mod Flush
pub mod Intensity
pub mod Inject
pub mod BulkUpdate
pub mod QueryReplay
mod Tests
