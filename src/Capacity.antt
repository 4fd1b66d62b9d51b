-- ===== src/Capacity.antt =====
-- Capacity (crates/cao-core/src/run/capacity.rs): Archive work against the free space of its volumes.
pub mod Demand
pub mod Check
pub mod Sums
pub mod Frozen
pub mod Bounds
