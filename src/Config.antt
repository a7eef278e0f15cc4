-- ===== src/Config.antt =====
-- app/config: the constants that the rules are tuned by.
pub mod Tuning
