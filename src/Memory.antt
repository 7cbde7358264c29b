-- ===== src/Memory.antt =====
-- memory/: chunks, the pool that owns them, and the buffers built on one chunk each.
pub mod Bytes
pub mod Chunk
pub mod Store
pub mod Pool
pub mod Buffer
pub mod Tests
