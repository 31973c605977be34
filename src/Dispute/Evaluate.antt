-- ===== src/Dispute/Evaluate.antt =====
-- `validate_inputs`, `evaluate`, `evaluate_bundle` and `verify_decision`. The parameters are
-- `digest_serializable` at the five types that the crate hashes.
use joan.Base.{
  ℕ, Bool, true, false, not, ◌||◌, ◌&&◌, String, List, [], ◌∷◌, Option, none, some, Result, ok, err,
  ◌>>=◌, ◌>>◌, reject_if, map_err, ◌!=◌, string_eq, ltb, leb, if◌then◌else◌,
}
use joan.Base.Set.{BTreeSet, contains}
use mathlib.Core.Option
use joan.Canonical.{Digest, digest_eq, placeholder_digest, Digests}
use joan.Case.Model.{DisputeCase, CaseCore}
use joan.Case.State.{
  CaseState, deterministic_evaluation, review_assigned, proposed_decision, challenge_window,
  appealed,
}
use joan.Case.Transition.{verify_case}
use joan.Evidence.Model.{EvidenceGraph, GraphCore}
use joan.Evidence.Graph.{verify_evidence_graph}
use joan.Dispute.Model.{
  RemedyKind, remedy_kind_ord, claim_code_ord, AutomaticResolutionProfile, Claim, DecisionPhase,
  primary, appeal, phase_eq, MachineFinding, DecisionStatus, claim_upheld, claim_rejected,
  fallback_applied, AutomaticDecisionReceipt, DecisionCore, DisputeEvaluationBundle, DisputeError,
  canonical, case_error, evidence_error, unsupported_schema, invalid_case_state,
  evidence_not_locked, binding_mismatch, policy_mismatch, value_out_of_range, ineligible_claim,
  remedy_not_allowed, invalid_prior_decision,
}
use joan.Dispute.Remedy.{fallback_kind, allocation_for, validate_profile}
use joan.Dispute.Findings.{require_nonempty, verify_evidence_refs, Tally, evaluate_findings}

pub record Hashes : Type 0 where
  pub cases : Digests CaseCore
  pub graphs : Digests GraphCore
  pub claims : Digests Claim
  pub profiles : Digests AutomaticResolutionProfile
  pub decisions : Digests DecisionCore

abbrev pub is_adjudicable : CaseState → Bool
is_adjudicable deterministic_evaluation = true
is_adjudicable review_assigned = true
is_adjudicable proposed_decision = true
is_adjudicable challenge_window = true
is_adjudicable appealed = true
is_adjudicable _ = false

abbrev pub decision_core : AutomaticDecisionReceipt → DecisionCore
decision_core d = record {
  schema = d.schema;
  phase = d.phase;
  case_digest = d.case_digest;
  evidence_root = d.evidence_root;
  claim_digest = d.claim_digest;
  profile_digest = d.profile_digest;
  supersedes = d.supersedes;
  status = d.status;
  support_count = d.support_count;
  reject_count = d.reject_count;
  abstain_count = d.abstain_count;
  participating_adjudicators = d.participating_adjudicators;
  remedy = d.remedy;
  reason_codes = d.reason_codes;
  finality_class = d.finality_class;
}

-- `allowed_adjudicators`, `threshold` and `finality_class` in `evaluate`.
abbrev pub adjudicators_for : DecisionPhase → AutomaticResolutionProfile → BTreeSet String
adjudicators_for primary profile = profile.primary_adjudicators
adjudicators_for appeal profile = profile.appeal_adjudicators

abbrev pub threshold_for : DecisionPhase → AutomaticResolutionProfile → ℕ
threshold_for primary profile = profile.primary_threshold
threshold_for appeal profile = profile.appeal_threshold

abbrev pub finality_for : DecisionPhase → String
finality_for primary = "automatic-primary-appealable"
finality_for appeal = "automatic-appeal-final"

-- The status, the remedy and the reason that the counts select.
unfoldable pub outcome :
    AutomaticResolutionProfile → Claim → ℕ → Tally → DecisionStatus × RemedyKind × String
outcome profile claim threshold tally =
    if leb threshold tally.support && ltb tally.reject threshold
    then (claim_upheld, claim.requested_remedy, "claim-threshold-satisfied")
    else (if leb threshold tally.reject && ltb tally.support threshold
        then (claim_rejected, RemedyKind.release_provider, "rejection-threshold-satisfied")
        else (
          fallback_applied,
          fallback_kind profile.ambiguity_fallback,
          "precommitted-ambiguity-fallback",
        ))

-- The phase in which `evaluate_bundle` evaluates.
abbrev pub phase_of : Option AutomaticDecisionReceipt → DecisionPhase
phase_of (some _) = appeal
phase_of none = primary

module _ (hashes : Hashes) where
  -- With the error of `joan_canonical`; each caller converts it to its own.
  unfoldable pub decision_content_digest : AutomaticDecisionReceipt → Result Digest DisputeError
  decision_content_digest d =
      map_err canonical (
        hashes.decisions.digest_serializable "joan.automatic-decision-receipt.v0" (decision_core d))

  unfoldable pub verify_decision : AutomaticDecisionReceipt → Result (Unit {0}) DisputeError
  verify_decision d = do
    reject_if (d.schema != "joan.automatic-decision-receipt.v0") (unsupported_schema d.schema)
    digest ← decision_content_digest d
    reject_if (digest != d.decision_digest) invalid_prior_decision

  -- The last `match` of `validate_inputs`.
  unfoldable pub validate_prior :
      DisputeCase
      → EvidenceGraph
      → DecisionPhase
      → Option AutomaticDecisionReceipt
      → Result (Unit {0}) DisputeError
  validate_prior dispute_case evidence primary none = ok tt
  validate_prior dispute_case evidence appeal (some decision) = do
    verify_decision decision
    reject_if
        (decision.phase != primary
          || decision.case_digest != dispute_case.case_digest
          || decision.evidence_root != evidence.graph_root)
        invalid_prior_decision
  validate_prior dispute_case evidence primary (some decision) = err invalid_prior_decision
  validate_prior dispute_case evidence appeal none = err invalid_prior_decision

  unfoldable pub validate_inputs :
      DisputeCase
      → EvidenceGraph
      → Claim
      → AutomaticResolutionProfile
      → DecisionPhase
      → Option AutomaticDecisionReceipt
      → Result (Unit {0}) DisputeError
  validate_inputs dispute_case evidence claim profile phase prior = do
    map_err case_error (verify_case hashes.cases dispute_case)
    map_err evidence_error (verify_evidence_graph hashes.graphs evidence)
    reject_if (not (is_adjudicable dispute_case.state)) invalid_case_state
    reject_if (not evidence.locked) evidence_not_locked
    reject_if (claim.schema != "joan.dispute-claim.v0") (unsupported_schema claim.schema)
    require_nonempty claim.claim_id "claim_id"
    reject_if
        (evidence.case_id != dispute_case.case_id
          || claim.case_id != dispute_case.case_id
          || claim.claimant_id != dispute_case.claimant_id)
        binding_mismatch
    validate_profile profile
    reject_if (profile.policy_digest != dispute_case.policy_digest) policy_mismatch
    reject_if (ltb profile.max_value_microunits dispute_case.value_microunits) value_out_of_range
    reject_if (not (contains claim.claim_code profile.eligible_claim_codes)) ineligible_claim
    reject_if (not (contains claim.requested_remedy profile.allowed_remedies)) remedy_not_allowed
    verify_evidence_refs evidence claim.evidence_refs
    validate_prior dispute_case evidence phase prior

  -- The rest of `evaluate`, from its `if` on the counts.
  unfoldable pub decide :
      DisputeCase
      → EvidenceGraph
      → Claim
      → AutomaticResolutionProfile
      → DecisionPhase
      → Option AutomaticDecisionReceipt
      → Tally
      → Result AutomaticDecisionReceipt DisputeError
  decide dispute_case evidence claim profile phase prior tally =
      let (status, remedy_kind, reason) =
        outcome profile claim (threshold_for phase profile) tally in
      do
        reject_if (not (contains remedy_kind profile.allowed_remedies)) remedy_not_allowed
        remedy ← allocation_for remedy_kind profile.ambiguity_fallback dispute_case.value_microunits
        claim_digest ←
            map_err canonical (hashes.claims.digest_serializable "joan.dispute-claim.v0" claim)
        profile_digest ←
            map_err canonical
              (hashes.profiles.digest_serializable "joan.automatic-resolution-profile.v0" profile)
        let decision : AutomaticDecisionReceipt = record {
          schema = "joan.automatic-decision-receipt.v0";
          phase = phase;
          case_digest = dispute_case.case_digest;
          evidence_root = evidence.graph_root;
          claim_digest = claim_digest;
          profile_digest = profile_digest;
          supersedes = Option.map (λ d. d.decision_digest) prior;
          status = status;
          support_count = tally.support;
          reject_count = tally.reject;
          abstain_count = tally.abstained;
          participating_adjudicators = tally.seen;
          remedy = remedy;
          reason_codes = reason ∷ [];
          finality_class = finality_for phase;
          decision_digest = placeholder_digest;
        }
        digest ← decision_content_digest decision
        ok (record decision { decision_digest = digest })

  unfoldable pub evaluate :
      DisputeCase
      → EvidenceGraph
      → Claim
      → AutomaticResolutionProfile
      → List MachineFinding
      → DecisionPhase
      → Option AutomaticDecisionReceipt
      → Result AutomaticDecisionReceipt DisputeError
  evaluate dispute_case evidence claim profile findings phase prior = do
    validate_inputs dispute_case evidence claim profile phase prior
    tally ←
        evaluate_findings dispute_case evidence profile phase (adjudicators_for phase profile)
          findings
    decide dispute_case evidence claim profile phase prior tally

  unfoldable pub evaluate_bundle :
      DisputeEvaluationBundle → Result AutomaticDecisionReceipt DisputeError
  evaluate_bundle b = do
    reject_if (b.schema != "joan.dispute-evaluation-bundle.v0") (unsupported_schema b.schema)
    evaluate b.dispute_case b.evidence b.claim b.profile b.findings (phase_of b.prior_decision)
        b.prior_decision
