-- ===== src/Logger.antt =====
-- Logger.h and Logger.cpp: the log level, the table of user tags, and what logPrint writes,
-- and the log file.
pub mod State
pub mod Tags
pub mod Removing
pub mod Level
pub mod Macros
pub mod File
pub mod Opening
mod Tests
