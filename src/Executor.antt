-- ===== src/Executor.antt =====
-- The Run Executor (crates/cao-core/src/run/executor.rs).
pub mod Classification
pub mod Services
pub mod Preparing
pub mod Traverse
pub mod Execute
pub mod Reaching
pub mod Traversed
pub mod Carried
pub mod Ending
pub mod Scheduling
pub mod Cleanup
pub mod Retaining
pub mod Failing
