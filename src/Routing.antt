-- ===== src/Routing.antt =====
-- Asset Routing (crates/cao-core/src/routing.rs): the closed enumerations, Routing Policy
-- compilation, Routing Decisions and the Routing Ledger.
pub mod Kinds
pub mod Policy
pub mod Route
pub mod Compilation
pub mod Conflicts
pub mod Decisions
pub mod Skips
pub mod Ledger
