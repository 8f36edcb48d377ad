-- ===== src/Common.antt =====
-- thunder_sandbox/_common/: what every part of the client shares.
pub mod Errors
pub mod Json
pub mod Sort
pub mod Task
pub mod Whitespace
