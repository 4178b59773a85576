-- ===== src/ControlPlane.antt =====
-- The control plane: internal/control_plane.
pub mod CommandRepository
pub mod CommandWorker
pub mod TaskService
pub mod DeviceRepository
pub mod DeviceService
pub mod ScheduledTaskWorker
