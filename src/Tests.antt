-- ===== src/Tests.antt =====
-- The theorems at concrete inputs.
mod Routing
mod Request
mod Recording
mod Running
mod Packing
pub mod Working
pub mod Capacity
pub mod Completing
pub mod Walking
