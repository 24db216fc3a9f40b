-- ===== src/Tests.antt =====
-- Concrete runs of the services, and the theorems at them.
pub mod Sample
mod LiveRuns
mod PaperRuns
mod DecisionRuns
mod RuleRuns
mod AuthRuns
mod GenerationRuns
mod BacktestRuns
mod SyncRuns
mod TechnicalRuns
mod CalendarRuns
mod RiskProfileRuns
