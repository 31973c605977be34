-- ===== src/Lattice.antt =====
-- crates/joan-lattice/src/lib.rs: the frames of the Lattice.
pub mod Frame
pub mod RoundTrip
pub mod Unread
pub mod Decoded
pub mod Canonicity
mod Tests
