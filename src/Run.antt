-- ===== src/Run.antt =====
-- The vocabulary of one Optimization Run: Attempt Outcomes (crates/cao-core/src/attempt.rs), the
-- lifecycle types (crates/cao-core/src/run/lifecycle.rs), and Preparing's facts
-- (crates/cao-core/src/run/preparation.rs).
pub mod Attempt
pub mod Lifecycle
pub mod Results
