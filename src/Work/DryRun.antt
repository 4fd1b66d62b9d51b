-- ===== src/Work/DryRun.antt =====
-- What the phases of crates/cao-core/src/run/executor/work_phases.rs change in a Dry Run.
pub mod Frames
pub mod Assets
pub mod Recording
pub mod Unchanging
