-- ===== src/Web.antt =====
-- apps/web/features/market: the browser's domain code, without React.
pub mod OrderBookModel
pub mod Synchronizer
pub mod Watchlist
pub mod CandleData
pub mod Chart
pub mod RollingRate
pub mod UiModel
pub mod Socket
