-- ===== src/Infra.antt =====
-- app/infra: the caches.
pub mod MemoryCache
pub mod VibeEventStore
