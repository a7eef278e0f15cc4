-- ===== src/Loop.antt =====
-- The search loop, app/loop.
pub mod Pareto
pub mod Scheduler
pub mod Checker
pub mod MakerChecker
pub mod OosValidator
pub mod WalkForward
pub mod Mutation
