-- ===== src/Daemon.antt =====
-- The capture daemon (bin/capture.rs): its settings, its tasks and what they call.
pub mod Grouping
pub mod Examples
pub mod Subscribing
pub mod Capture
pub mod Writing
pub mod Reconciling
pub mod Reconnecting
pub mod Config
pub mod Startup
