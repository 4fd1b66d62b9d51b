-- ===== src/Work.antt =====
-- The work phases of a run (crates/cao-core/src/run/executor/work_phases.rs).
pub mod Flow
pub mod Toolset
pub mod Worker
pub mod Scope
pub mod Visit
pub mod GamePaths
pub mod Discover
pub mod Extract
pub mod Tree
pub mod Process
pub mod Finalize
pub mod Run
pub mod Traced
pub mod Ends
pub mod Followed
pub mod Attempts
pub mod Unrefused
pub mod DryRun
pub mod Completing
pub mod Ordered
pub mod Beneath
pub mod Walked
pub mod Visited
pub mod Diagnosed
pub mod Given
pub mod Giving
pub mod Faultless
