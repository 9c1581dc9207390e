-- ===== src/Shared.antt =====
-- crates/zorch-shared: the error type, and what every crate uses of strings and floats.
pub mod Errors
pub mod Float
pub mod Text
pub mod Lines
pub mod Action
pub mod Sql
pub mod Crypto
