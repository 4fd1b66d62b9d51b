-- ===== src/Work/Unrefused.antt =====
-- The recording steps of the work phases (crates/cao-core/src/run/executor/work_phases.rs).
pub mod Walks
pub mod Discovery
pub mod Extraction
pub mod Processing
pub mod Finalizing
pub mod Whole
