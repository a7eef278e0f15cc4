-- ===== src/Loop/MakerChecker.antt =====
-- The maker-checker stage, app/loop/maker_checker: its contracts, and the arbiter that merges them.
pub mod Schemas
pub mod Arbiter
pub mod Acceptance
mod Tests
