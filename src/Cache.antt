-- ===== src/Cache.antt =====
-- crates/zorch-cache
pub mod StickyTargetKey
mod Examples
