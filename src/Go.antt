-- ===== src/Go.antt =====
-- The parts of Go's standard library that the sources call, on strings of bytes.
pub mod Text
pub mod Split
pub mod Case
pub mod Number
pub mod Unicode
pub mod Index
pub mod Path
