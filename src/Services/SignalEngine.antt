-- ===== src/Services/SignalEngine.antt =====
-- The signal engine, app/services/signal_engine.py, from the candidates and the figures that pandas
-- computes on.
pub mod Confluence
pub mod Verdict
pub mod Context
pub mod Scoring
pub mod Ranking
pub mod Sound
pub mod Best
pub mod Origin
mod Tests
