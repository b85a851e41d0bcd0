-- ===== src/Queue/Threads.antt =====
-- Any number of threads on one Queue. A call runs under the mutex as a whole, up to the point where it
-- sleeps; a woken thread goes on where it slept; setAllowedNewData broadcasts after its unlock, as a
-- step of its own.
pub mod System
pub mod Steps
pub mod Answers
pub mod Refines
pub mod Census
pub mod Called
pub mod Conserved
pub mod Held
pub mod Sorted
pub mod Progress
pub mod Wakeups
pub mod Closing
mod Runs
mod Tests
