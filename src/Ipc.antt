-- ===== src/Ipc.antt =====
-- src/ipc: the events that the driver delivers.
pub mod Wire
pub mod Payloads
pub mod Kernel
pub mod Process
pub mod Named
pub mod RoundTrip
pub mod Decode
pub mod Bounds
