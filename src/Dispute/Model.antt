-- ===== src/Dispute/Model.antt =====
-- Claims, profiles, findings and decisions, and the errors.
use joan.Base.{ℕ, ◌≡◌, String, Bool, List, Option, Eq, derive_eq, arith}
use joan.Base.Order.{Ord, derive_ord}
use joan.Base.Set.{BTreeSet}
use joan.Canonical.{Digest, CanonicalError}
use joan.Case.Model.{DisputeCase, CaseError}
use joan.Evidence.Model.{EvidenceGraph, EvidenceError}

pub data ClaimCode : Type 0 where
  non_delivery acceptance_failure duplicate_charge budget_exceeded : ClaimCode
  unauthorized_scope settlement_mismatch repair_failure : ClaimCode

abbrev pub claim_position : ClaimCode → ℕ
claim_position non_delivery = 0
claim_position acceptance_failure = 1
claim_position duplicate_charge = 2
claim_position budget_exceeded = 3
claim_position unauthorized_scope = 4
claim_position settlement_mismatch = 5
claim_position repair_failure = 6

pub claim_position_inj : (a b : ClaimCode) → claim_position a ≡ claim_position b → a ≡ b
claim_position_inj a b h = ground arith

instance abbrev pub claim_code_ord : Ord ClaimCode
claim_code_ord = derive_ord claim_position claim_position_inj

pub data RemedyKind : Type 0 where
  full_refund release_provider split repair quarantine : RemedyKind

abbrev pub remedy_position : RemedyKind → ℕ
remedy_position full_refund = 0
remedy_position release_provider = 1
remedy_position split = 2
remedy_position repair = 3
remedy_position quarantine = 4

pub remedy_position_inj : (a b : RemedyKind) → remedy_position a ≡ remedy_position b → a ≡ b
remedy_position_inj a b h = ground arith

instance abbrev pub remedy_kind_ord : Ord RemedyKind
remedy_kind_ord = derive_ord remedy_position remedy_position_inj

pub data AmbiguityFallback : Type 0 where
  full_refund release_provider repair quarantine : AmbiguityFallback
  split : (buyer_refund_bps : ℕ) → AmbiguityFallback  -- u16

pub record AutomaticResolutionProfile : Type 0 where
  pub schema : String
  pub policy_digest : Digest
  pub eligible_claim_codes : BTreeSet ClaimCode
  pub allowed_remedies : BTreeSet RemedyKind
  pub max_value_microunits : ℕ  -- u64
  pub primary_adjudicators : BTreeSet String
  pub appeal_adjudicators : BTreeSet String
  pub primary_threshold : ℕ  -- u64
  pub appeal_threshold : ℕ  -- u64
  pub ambiguity_fallback : AmbiguityFallback
  pub automatic_finality : Bool

pub record Claim : Type 0 where
  pub schema : String
  pub claim_id : String
  pub case_id : String
  pub claimant_id : String
  pub claim_code : ClaimCode
  pub requested_remedy : RemedyKind
  pub evidence_refs : List String

pub data DecisionPhase : Type 0 where
  primary appeal : DecisionPhase

unfoldable pub DecisionPhase-discrete : Discrete DecisionPhase
DecisionPhase-discrete = hlevel

instance unfoldable pub phase_eq : Eq DecisionPhase
unfolding DecisionPhase-discrete
phase_eq = derive_eq DecisionPhase-discrete

pub data FindingDisposition : Type 0 where
  supports_claim rejects_claim abstain : FindingDisposition

pub record MachineFinding : Type 0 where
  pub schema : String
  pub adjudicator_id : String
  pub phase : DecisionPhase
  pub case_digest : Digest
  pub evidence_root : Digest
  pub policy_digest : Digest
  pub disposition : FindingDisposition
  pub evidence_refs : List String

pub data DecisionStatus : Type 0 where
  claim_upheld claim_rejected fallback_applied : DecisionStatus

pub record RemedyAllocation : Type 0 where
  pub kind : RemedyKind
  pub buyer_refund_microunits : ℕ  -- u64
  pub provider_release_microunits : ℕ  -- u64
  pub retained_microunits : ℕ  -- u64

pub record AutomaticDecisionReceipt : Type 0 where
  pub schema : String
  pub phase : DecisionPhase
  pub case_digest : Digest
  pub evidence_root : Digest
  pub claim_digest : Digest
  pub profile_digest : Digest
  pub supersedes : Option Digest
  pub status : DecisionStatus
  pub support_count : ℕ  -- u64
  pub reject_count : ℕ  -- u64
  pub abstain_count : ℕ  -- u64
  pub participating_adjudicators : List String
  pub remedy : RemedyAllocation
  pub reason_codes : List String
  pub finality_class : String
  pub decision_digest : Digest

-- The fields that the decision's digest protects.
pub record DecisionCore : Type 0 where
  pub schema : String
  pub phase : DecisionPhase
  pub case_digest : Digest
  pub evidence_root : Digest
  pub claim_digest : Digest
  pub profile_digest : Digest
  pub supersedes : Option Digest
  pub status : DecisionStatus
  pub support_count : ℕ
  pub reject_count : ℕ
  pub abstain_count : ℕ
  pub participating_adjudicators : List String
  pub remedy : RemedyAllocation
  pub reason_codes : List String
  pub finality_class : String

pub record DisputeEvaluationBundle : Type 0 where
  pub schema : String
  pub dispute_case : DisputeCase
  pub evidence : EvidenceGraph
  pub claim : Claim
  pub profile : AutomaticResolutionProfile
  pub findings : List MachineFinding
  pub prior_decision : Option AutomaticDecisionReceipt

pub data DisputeError : Type 0 where
  canonical : CanonicalError → DisputeError
  case_error : CaseError → DisputeError
  evidence_error : EvidenceError → DisputeError
  unsupported_schema empty_field : String → DisputeError
  invalid_case_state evidence_not_locked binding_mismatch policy_mismatch : DisputeError
  automatic_finality_required adjudicator_overlap invalid_threshold : DisputeError
  value_out_of_range ineligible_claim remedy_not_allowed : DisputeError
  invalid_evidence_reference : String → DisputeError
  finding_binding_mismatch : DisputeError
  unauthorized_adjudicator duplicate_finding : String → DisputeError
  finding_without_evidence invalid_prior_decision amount_overflow : DisputeError
