-- ===== src/Compiler.antt =====
-- crates/joan-compiler/src/lib.rs: the compiler and the bounded virtual machine.
pub mod Model
pub mod Compile
pub mod Agree
pub mod Stack
pub mod Vm
pub mod Execute
pub mod Ensures
pub mod Typing
pub mod Frames
pub mod Instructions
pub mod Calls
pub mod Safety
pub mod TypeSafety
pub mod Outcomes
pub mod Accounting
mod Tests
