-- ===== src/Services/Vibe.antt =====
-- app/services/vibe: the runs of the agent.
pub mod Cancellation
