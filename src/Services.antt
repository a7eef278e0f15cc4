-- ===== src/Services.antt =====
-- app/services: what is done with a detected pattern and an open position.
pub mod PositionManager
pub mod DisciplineFilters
pub mod SignalEngine
pub mod MacroBias
pub mod Vibe
