-- ===== src/Backtest.antt =====
-- src/modules/backtesting: the simulation of a strategy over stored candles.
pub mod Indicators
pub mod Metrics
pub mod Analysis
pub mod Exits
pub mod Engine
pub mod Loop
pub mod Ledger
pub mod Counters
pub mod Order
pub mod UseCase
pub mod Settled
