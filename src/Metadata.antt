-- ===== src/Metadata.antt =====
-- Package internal/metadatadb: the write and read operations, the in-memory backend, and the journal
-- of the S3 backend.
pub mod Value
pub mod Ops
pub mod Journal
mod Tests
