-- ===== src/Control.antt =====
-- src/control: the agent's side of the control plane.
pub mod Alerts
pub mod Sha256
pub mod Isolation
pub mod Executor
pub mod Sync
pub mod Heartbeat
