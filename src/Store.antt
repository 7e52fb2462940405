-- ===== src/Store.antt =====
-- The crate `kalshi-store` (crates/store/src): what is written to disk, and how.
pub mod Channel
pub mod Session
pub mod Disk
pub mod Schema
pub mod Json
pub mod GridHistory
pub mod Encode
pub mod Sink
pub mod Writer
pub mod Recording
pub mod Quarantine
