-- ===== src/Cache.antt =====
-- The time-series cache of the server, after core/dtss_cache.h.
pub mod Lru
pub mod Fragments
pub mod Store
