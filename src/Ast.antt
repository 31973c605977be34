-- ===== src/Ast.antt =====
-- crates/joan-ast/src/lib.rs: types, labels, operators and the canonical syntax.
pub mod Types
pub mod Canonical
pub mod Flow
mod Tests
