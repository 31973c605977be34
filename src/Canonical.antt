-- ===== src/Canonical.antt =====
-- crates/joan-canonical/src/lib.rs: digests, and what the other crates use of the crate.
mod Types
mod Interface
unfoldable pub use Types.*
pub use Interface.*
