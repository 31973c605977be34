-- ===== src/Case.antt =====
-- crates/joan-case/src/lib.rs: the lifecycle of a dispute case.
pub mod State
pub mod Model
pub mod Transition
pub mod Lifecycle
pub mod Atomic
pub mod History
pub mod Stages
mod Tests
