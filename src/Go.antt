-- ===== src/Go.antt =====
-- The parts of Go's language and standard library that the source computes with.
pub mod Bytes
pub mod Split
pub mod Utf8
pub mod Strconv
pub mod Case
pub mod Any
pub mod Json
pub mod Http
pub mod Context
pub mod Hex
pub mod Url
