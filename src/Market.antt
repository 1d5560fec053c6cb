-- ===== src/Market.antt =====
-- apps/api/src/market: the domain layer.
pub mod Events
pub mod FixedPoint
pub mod OrderBook
pub mod Candles
pub mod Clock
pub mod Steps
pub mod Prng
pub mod Config
pub mod Simulator
pub mod Engine
