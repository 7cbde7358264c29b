-- ===== src/Timer.antt =====
-- timer/: the map from identifiers to their state, and the timer.
pub mod HashMap
pub mod Schedule
pub mod Tick
mod Tests
