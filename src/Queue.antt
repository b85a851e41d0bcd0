-- ===== src/Queue.antt =====
-- Queue.h and Queue.cpp: a bounded, optionally sorted queue of user pointers, shared by threads.
-- `State` has the object and its monad, `Push` and `Pop` the work under the mutex, `Calls` the
-- public methods; the other children prove.
pub mod State
pub mod Push
pub mod Pop
pub mod Flush
pub mod Calls
pub mod Represents
pub mod Order
pub mod Insert
pub mod Pushing
pub mod Popping
pub mod Flushing
pub mod Peeking
pub mod Contract
pub mod Sorting
pub mod Ordered
pub mod Threads
mod Tests
