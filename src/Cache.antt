-- ===== src/Cache.antt =====
-- Package internal/cache: the helpers that the backends share, and the in-memory backend.
pub mod Short
pub mod Memory
pub mod Disk
pub mod Tiered
mod Tests
