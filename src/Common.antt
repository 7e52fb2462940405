-- ===== src/Common.antt =====
-- The crate `kalshi-common` (crates/common/src): exact fixed-point values, tickers, tick grids.
pub mod Parse
pub mod Px
pub mod Qty
pub mod Notional
pub mod Ticker
pub mod Ranges
pub mod Examples
