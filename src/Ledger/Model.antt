-- ===== src/Ledger/Model.antt =====
-- Holds, the ledger, requests and receipts, and the errors.
use joan.Base.{ℕ, String, Bool, Option, Eq, derive_eq}
use joan.Base.Map.{BTreeMap}
use joan.Base.Set.{BTreeSet}
use joan.Canonical.{Digest, CanonicalError}
use joan.Dispute.Model.{AutomaticDecisionReceipt, DisputeError}

pub data HoldStatus : Type 0 where
  reserved settled refunded split repair_pending quarantined : HoldStatus

unfoldable pub HoldStatus-discrete : Discrete HoldStatus
HoldStatus-discrete = hlevel

instance unfoldable pub hold_status_eq : Eq HoldStatus
unfolding HoldStatus-discrete
hold_status_eq = derive_eq HoldStatus-discrete

pub record MockHold : Type 0 where
  pub hold_id : String
  pub buyer_id : String
  pub provider_id : String
  pub contract_digest : Digest
  pub original_amount_microunits : ℕ  -- u64
  pub locked_amount_microunits : ℕ  -- u64
  pub status : HoldStatus
  pub decision_digest : Option Digest

pub record MockLedger : Type 0 where
  pub schema : String
  pub balances : BTreeMap String ℕ  -- u64
  pub holds : BTreeMap String MockHold
  pub consumed_idempotency_keys : BTreeSet String
  pub revision : ℕ  -- u64
  pub initial_total_microunits : ℕ  -- u64
  pub ledger_root : Digest

pub record ReserveRequest : Type 0 where
  pub schema : String
  pub expected_ledger_root : Digest
  pub expected_revision : ℕ  -- u64
  pub hold_id : String
  pub buyer_id : String
  pub provider_id : String
  pub contract_digest : Digest
  pub amount_microunits : ℕ  -- u64
  pub idempotency_key : String

pub record ApplyDecisionRequest : Type 0 where
  pub schema : String
  pub expected_ledger_root : Digest
  pub expected_revision : ℕ  -- u64
  pub hold_id : String
  pub idempotency_key : String
  pub decision : AutomaticDecisionReceipt

pub record LedgerMutationReceipt : Type 0 where
  pub schema : String
  pub operation : String
  pub prior_ledger_root : Digest
  pub new_ledger_root : Digest
  pub revision : ℕ  -- u64
  pub hold_id : String
  pub request_digest : Digest
  pub conserved_total_microunits : ℕ  -- u64
  pub committed : Bool

pub data LedgerError : Type 0 where
  canonical : CanonicalError → LedgerError
  dispute : DisputeError → LedgerError
  unsupported_schema empty_field : String → LedgerError
  invalid_stored_ledger stale_root stale_revision replay : LedgerError
  unknown_account : String → LedgerError
  same_account : LedgerError
  duplicate_hold unknown_hold : String → LedgerError
  insufficient_balance hold_not_reserved allocation_mismatch capacity : LedgerError
  amount_overflow : LedgerError

-- The fields that the root protects.
pub record LedgerCore : Type 0 where
  pub schema : String
  pub balances : BTreeMap String ℕ
  pub holds : BTreeMap String MockHold
  pub consumed_idempotency_keys : BTreeSet String
  pub revision : ℕ
  pub initial_total_microunits : ℕ
