-- ===== src/External.antt =====
-- What the repository calls and does not contain.
pub mod Redis
pub mod Serde
pub mod Json
