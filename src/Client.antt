-- ===== src/Client.antt =====
-- Package client: entity tags, conditional requests, byte ranges and the reordering buffer.
pub mod Key
pub mod Etag
pub mod Options
pub mod ByteRange
pub mod Buffer
pub mod Parallel
mod Tests
