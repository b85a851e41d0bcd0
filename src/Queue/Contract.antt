-- ===== src/Queue/Contract.antt =====
-- The contract of the public methods of Queue, as a caller sees it.
mod Locking
pub mod Pushes
pub mod Sorts
pub mod Pops
pub mod Waits
pub mod Observes
pub mod Closes
