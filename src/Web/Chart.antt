-- ===== src/Web/Chart.antt =====
-- apps/web/features/market/chart: what the chart shows, and the candles it is told of.
pub mod Adapter
pub mod History
pub mod Tests
