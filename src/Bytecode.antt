-- ===== src/Bytecode.antt =====
-- crates/joan-bytecode/src/lib.rs: bytecode artifacts and their verifier.
pub mod Model
pub mod Labels
pub mod Shape
pub mod Abstract
pub mod Verify
pub mod Structure
pub mod Emit
pub mod Equality
pub mod Artifact
pub mod Linear
pub mod Panics
pub mod Acyclic
pub mod Grounded
mod Tests
