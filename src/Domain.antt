-- ===== src/Domain.antt =====
-- The trading rules, app/domain.
pub mod Signals
pub mod Validation
pub mod RsiTrend
pub mod RsiBacktest
pub mod RsiPlan
