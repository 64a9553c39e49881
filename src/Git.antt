-- ===== src/Git.antt =====
-- Package internal/strategy/git: the coordination of snapshots and the response spool.
pub mod Coordinator
pub mod Spool
mod Tests
