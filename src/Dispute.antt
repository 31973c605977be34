-- ===== src/Dispute.antt =====
-- crates/joan-dispute/src/lib.rs: automatic adjudication.
pub mod Model
pub mod Remedy
pub mod Findings
pub mod Evaluate
pub mod Allocation
pub mod Quorum
pub mod Count
pub mod Decision
pub mod Verdict
pub mod Ruling
pub mod Bundle
pub mod Tests
