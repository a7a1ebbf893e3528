-- ===== src/Indicators.antt =====
-- packages/core/src/services/indicator-service.ts: indicators over the closed candles of a market.
pub mod Series
pub mod Trend
pub mod Windows
pub mod Service
pub mod Prefixes
pub mod Causality
mod Tests
