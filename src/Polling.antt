-- ===== src/Polling.antt =====
-- src/polling: snapshots of services and scheduled tasks, compared poll by poll.
pub mod Envelope
pub mod Services
pub mod Tasks
