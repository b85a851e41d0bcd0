-- ===== src/Poll.antt =====
-- Poll.h and Poll.cpp: a table of file descriptors for poll(2), and the wake-up of a waiting thread.
-- `State` has the object, `Table` the methods on the table, `Control` the wake-up socket, `Wait` the
-- waiting threads; the other children prove.
pub mod State
pub mod Table
pub mod Lookup
pub mod Watching
pub mod Masks
pub mod Adding
pub mod Setting
pub mod Creating
pub mod Closing
pub mod Failing
pub mod Control
pub mod Wakeup
pub mod Releasing
pub mod Wait
pub mod Counting
pub mod Waiting
pub mod Alone
pub mod Flushing
pub mod Entering
pub mod Reporting
pub mod Alert
pub mod Woken
mod Tests
