-- ===== src/Log.antt =====
-- log/: the ring that hands lines to the writing thread, and the logger.
pub mod Queue
pub mod Logger
pub mod Level
mod Tests
