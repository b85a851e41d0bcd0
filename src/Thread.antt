-- ===== src/Thread.antt =====
-- Thread.h and Thread.cpp: a thread object with run, requestExit, requestExitAndWait and join.
-- State has the object and its methods, Loop the started thread, Waiting that thread beside its callers.
pub mod State
pub mod Loop
pub mod Life
pub mod Joining
pub mod Waiting
pub mod Awaited
pub mod Asked
pub mod Exiting
pub mod Restarting
mod Tests
