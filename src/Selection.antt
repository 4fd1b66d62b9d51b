-- ===== src/Selection.antt =====
-- Mod Selection resolution (crates/cao-core/src/run/mod_selection.rs).
pub mod Names
pub mod Overlap
pub mod Resolve
pub mod Disjoint
