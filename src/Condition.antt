-- ===== src/Condition.antt =====
-- Condition.h: a condition variable that waits by the clock CLOCK_MONOTONIC. `Deadline` has the
-- arithmetic of the timed waits.
pub mod Deadline
pub mod Early
pub mod Calls
pub mod Timed
mod Tests
