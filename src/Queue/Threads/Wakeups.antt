-- ===== src/Queue/Threads/Wakeups.antt =====
-- No wakeup is lost, but by a flush and by a woken writer that does not push.
pub mod Fairness
pub mod Writers
pub mod Readers
pub mod Steps
pub mod Reached
