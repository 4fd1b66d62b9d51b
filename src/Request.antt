-- ===== src/Request.antt =====
-- What starts an Optimization Run: the Work Choices (crates/cao-core/src/run/work_choices.rs), the
-- Admission Rules (crates/cao-core/src/admission.rs) and the Run Request
-- (crates/cao-core/src/run/lifecycle.rs).
pub mod Choices
pub mod Admission
pub mod RunRequest
pub mod Admitted
pub mod Normal
