-- ===== src/Evidence.antt =====
-- crates/joan-evidence/src/lib.rs: the evidence graph of a case.
pub mod Model
pub mod Graph
pub mod WellFormed
pub mod Mutations
pub mod Atomic
pub mod History
mod Tests
