-- ===== src/Packing.antt =====
-- The Archive crate (crates/cao-archive/src): names of plugins and Archives.
pub mod FileName
pub mod Extension
