-- ===== src/Ingest.antt =====
-- The crate `kalshi-ingest` (crates/ingest/src): books, subscriptions, requests.
pub mod Book
pub mod Subscription
pub mod Registry
pub mod Limiter
pub mod Markets
pub mod Doubling
pub mod Backoff
pub mod Client
pub mod Wire
pub mod Auth
pub mod Connection
