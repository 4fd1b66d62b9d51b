-- ===== src/Finalization.antt =====
-- Archive Finalization (crates/cao-core/src/run/finalization).
pub mod Plan
pub mod Account
pub mod Phase
pub mod Finalize
pub mod Keeps
pub mod Lawful
pub mod Concluding
