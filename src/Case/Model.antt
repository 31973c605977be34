-- ===== src/Case/Model.antt =====
-- The records of a case, a transition and its receipt, and the errors.
use joan.Base.{ℕ, String, Bool, List}
use joan.Base.Set.{BTreeSet}
use joan.Canonical.{Digest, CanonicalError}
use joan.Case.State.{CaseState}

pub record NewCase : Type 0 where
  pub schema : String
  pub case_id : String
  pub contract_digest : Digest
  pub transaction_digest : Digest
  pub claimant_id : String
  pub respondent_id : String
  pub policy_digest : Digest
  pub value_microunits : ℕ  -- u64

pub record DisputeCase : Type 0 where
  pub schema : String
  pub case_id : String
  pub contract_digest : Digest
  pub transaction_digest : Digest
  pub claimant_id : String
  pub respondent_id : String
  pub policy_digest : Digest
  pub value_microunits : ℕ  -- u64
  pub state : CaseState
  pub revision : ℕ  -- u64
  pub consumed_idempotency_keys : BTreeSet String
  pub case_digest : Digest

pub record CaseTransition : Type 0 where
  pub schema : String
  pub expected_case_digest : Digest
  pub expected_revision : ℕ  -- u64
  pub from : CaseState
  pub to : CaseState
  pub actor_id : String
  pub authority_ref : Digest
  pub idempotency_key : String
  pub reason_code : String
  pub evidence_refs : List Digest

pub record CaseTransitionReceipt : Type 0 where
  pub schema : String
  pub case_id : String
  pub prior_case_digest : Digest
  pub new_case_digest : Digest
  pub revision : ℕ  -- u64
  pub from : CaseState
  pub to : CaseState
  pub actor_id : String
  pub reason_code : String
  pub transition_digest : Digest
  pub committed : Bool

pub data CaseError : Type 0 where
  canonical : CanonicalError → CaseError
  unsupported_schema : String → CaseError
  empty_field : String → CaseError
  same_party zero_value invalid_stored_digest stale_case_digest stale_revision : CaseError
  stale_state illegal_transition replay idempotency_capacity revision_overflow : CaseError

-- The fields that the digest protects.
pub record CaseCore : Type 0 where
  pub schema : String
  pub case_id : String
  pub contract_digest : Digest
  pub transaction_digest : Digest
  pub claimant_id : String
  pub respondent_id : String
  pub policy_digest : Digest
  pub value_microunits : ℕ
  pub state : CaseState
  pub revision : ℕ
  pub consumed_idempotency_keys : BTreeSet String
