-- ===== src/Tests.antt =====
-- Concrete inputs for the theorems of the other modules.
mod Spool
mod Shipper
mod Polling
mod Plugin
mod Control
mod Executor
mod Sync
mod Assignment
mod Ipc
