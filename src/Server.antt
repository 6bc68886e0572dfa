-- ===== src/Server.antt =====
-- The server as a whole: its settings, its socket files, and its start and stop.
pub mod Socket
pub mod Config
pub mod Lifecycle
pub mod Connections
