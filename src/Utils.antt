-- ===== src/Utils.antt =====
-- Utils.h and Utils.cpp: byte order, rounding and the time macros.
pub mod Codec
pub mod Rounding
pub mod Time
mod Tests
