-- ===== src/Work/Faultless.antt =====
-- A run of crates/cao-core/src/run/executor.rs whose work is that of
-- crates/cao-core/src/run/executor/work_phases.rs.
pub mod Entering
pub mod Working
pub mod Traversing
pub mod Whole
