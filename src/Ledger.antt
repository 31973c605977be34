-- ===== src/Ledger.antt =====
-- crates/joan-mock-ledger/src/lib.rs: the ledger of simulated holds.
pub mod Model
pub mod Ops
pub mod Totals
pub mod Conservation
pub mod Stored
pub mod Holds
pub mod Credits
pub mod Settlement
pub mod History
pub mod Progress
pub mod Payout
pub mod Open
pub mod Finality
pub mod Resolution
mod Tests
mod ResolutionTests
