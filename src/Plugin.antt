-- ===== src/Plugin.antt =====
-- src/plugin: the server that out-of-process plugins connect to, and the supervisor that runs them.
pub mod Fnv
pub mod Protocol
pub mod Manifest
pub mod Handshake
pub mod Enrich
pub mod Session
pub mod Acceptor
pub mod Supervisor
pub mod Assignment
