-- ===== src/Guardian.antt =====
-- crates/joan-guardian/src/lib.rs: the votes of guardians on a candidate.
pub mod Gate
pub mod Approval
mod Tests
