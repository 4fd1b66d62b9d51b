-- ===== src/Evidence.antt =====
-- Run Evidence (crates/cao-core/src/run/evidence.rs and evidence/): the facts of one run, the
-- recording steps and the sealed record.
pub mod Storage
pub mod Sinks
pub mod Phases
pub mod Facts
pub mod Attempts
pub mod Seal
pub mod Operations
pub mod Transition
pub mod Account
pub mod Preserved
pub mod Lawful
pub mod Progress
pub mod Counting
pub mod Planning
pub mod Soundness
pub mod Refusals
pub mod Messages
pub mod Summaries
pub mod Ascending
pub mod Publishing
pub mod Quiet
pub mod Total
pub mod Unmoved
pub mod Published
pub mod Standing
pub mod Accepted
pub mod Once
pub mod Noted
pub mod Uncleaned
