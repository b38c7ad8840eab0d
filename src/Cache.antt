-- ===== src/Cache.antt =====
-- internal/cache: the bounded caches and the canonical keys.
pub mod Assoc
pub mod Lru
pub mod Keys
pub mod Requirements
